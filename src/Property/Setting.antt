-- ===== src/Property/Setting.antt =====
-- The setters of src/moProperty.cpp: what a set changes, when it fails, and which values survive
-- being printed and set again.
use movid.Base.{
  ℕ, zero, suc, ◌≡◌, refl, ap, ap₂, sym, ◌∙◌, ◌⊎◌, inl, inr, IsInt32, Bool, true, false, Option,
  none, some, [], if◌then◌else◌, arith, text_eq,
}
use movid.Base.Dict.{Dict}
use movid.Base.{List, ◌↔◌}
use movid.Float.{Floats}
use movid.Number.RoundTrip.{atoi-print_int}
use movid.Utils.{◌>>=◌}
use movid.Property.{
  Point, convert_to_double, Value, bool, string, integer, double, pointlist, get_type, new_property,
  convert_to_string, convert_to_bool, convert_to_integer, autoconvert, Property, set, as_string,
  stream_property,
}
use movid.Property.Convert.{convert_to_point_list_total}

module _ ⦃F : Floats⦄ where
  autoconvert-get_type :
      (old new v : Value) → autoconvert old new ≡ some v → get_type v ≡ get_type old
  unfolding autoconvert get_type
  autoconvert-get_type (bool b) new v h = ground arith
  autoconvert-get_type (string b) new v h = ground arith
  autoconvert-get_type (integer b) new v h = ground arith
  autoconvert-get_type (double b) new v h = ground arith
  autoconvert-get_type (pointlist b) new v h = ground arith

  -- The two ways in which a set returns.
  abbrev pub Ignored : Property → Property → Dict ℕ ℕ → Type 0
  Ignored p q calls = (p.readonly ≡ true) × (q ≡ p) × (calls ≡ [])

  abbrev pub Written : Value → Property → Property → Dict ℕ ℕ → Type 0
  Written new p q calls =
      (v : Value) × (p.readonly ≡ false)
      × (autoconvert p.val new ≡ some v)
      × (q ≡ record p { val = v })
      × (calls ≡ p.callbacks)

  abbrev write : Property → Option Value → Option (Property × Dict ℕ ℕ)
  write p o = do val ← o; some (record p { val = val }, p.callbacks)

  write-eq-some :
      (p q : Property) (calls : Dict ℕ ℕ) (o : Option Value)
      → write p o ≡ some (q, calls)
      → (v : Value) × (o ≡ some v) × (q ≡ record p { val = v }) × (calls ≡ p.callbacks)
  write-eq-some p q calls none h = cc
  write-eq-some p q calls (some v) h = (v, refl, cc, cc)

  set_cases_lem :
      (new : Value) (p q : Property) (calls : Dict ℕ ℕ) (ro : Bool)
      → p.readonly ≡ ro
      → (if ro then some (p, []) else write p (autoconvert p.val new)) ≡ some (q, calls)
      → Ignored p q calls ⊎ Written new p q calls
  set_cases_lem new p q calls true e h = inl (e, cc, cc)
  set_cases_lem new p q calls false e h =
      let (v, a, b, c) = write-eq-some p q calls (autoconvert p.val new) h in inr (v, e, a, b, c)

  pub set_cases :
      (new : Value) (p q : Property) (calls : Dict ℕ ℕ)
      → set new p ≡ some (q, calls)
      → Ignored p q calls ⊎ Written new p q calls
  unfolding set
  set_cases new p q calls h = set_cases_lem new p q calls p.readonly refl h

  -- A set that returns keeps the type of the property and all of it but its value. A read-only
  -- property keeps its value too and runs no callback; any other runs each of its callbacks.
  pub set_keeps :
      (new : Value) (p q : Property) (calls : Dict ℕ ℕ)
      → set new p ≡ some (q, calls)
      → (get_type q.val ≡ get_type p.val)
        × (q ≡ record p { val = q.val })
        × (calls ≡ (if p.readonly then [] else p.callbacks))
        × (p.readonly ≡ true → q ≡ p)
  set_keeps new p q calls h = elim (set_cases new p q calls h) [
    | inl (ro, same, none_run) ↦ (cc, cc, rw ro none_run, λ _. same)
    | inr (v, open_, conv, same, called) ↦ (
      ap (λ (r : Property). get_type r.val) same ∙ autoconvert-get_type p.val new v conv,
      same ∙ sym (ap (λ (r : Property). record p { val = r.val }) same),
      rw open_ called,
      λ ro. cc,
    )
  ]

  abbrev pub IsPointsIntoDouble : Value → Value → Type 0
  IsPointsIntoDouble (double d) (pointlist l) = Unit
  IsPointsIntoDouble _ _ = ⊥

  autoconvert_fails :
      (old new : Value)
      → IsPointsIntoDouble old new ⊎ ((v : Value) × (autoconvert old new ≡ some v))
  unfolding autoconvert convert_to_double
  autoconvert_fails (bool b) new = inr (_, refl)
  autoconvert_fails (string b) new = inr (_, refl)
  autoconvert_fails (integer b) new = inr (_, refl)
  autoconvert_fails (double b) (pointlist l) = inl tt
  autoconvert_fails (double b) (bool l) = inr (_, refl)
  autoconvert_fails (double b) (string l) = inr (_, refl)
  autoconvert_fails (double b) (integer l) = inr (_, refl)
  autoconvert_fails (double b) (double l) = inr (_, refl)
  autoconvert_fails (pointlist b) new =
      let (l, e) = convert_to_point_list_total new in inr (pointlist l, rw e)

  autoconvert-none : (old new : Value) → IsPointsIntoDouble old new → autoconvert old new ≡ none
  unfolding autoconvert convert_to_double
  autoconvert-none (double d) (pointlist l) h = refl
  autoconvert-none (double d) (bool l) h = absurd h
  autoconvert-none (double d) (string l) h = absurd h
  autoconvert-none (double d) (integer l) h = absurd h
  autoconvert-none (double d) (double l) h = absurd h
  autoconvert-none (bool d) new h = absurd h
  autoconvert-none (string d) new h = absurd h
  autoconvert-none (integer d) new h = absurd h
  autoconvert-none (pointlist d) new h = absurd h

  set_lem :
      (new : Value) (p : Property)
      → set new p ≡ (if p.readonly then some (p, []) else write p (autoconvert p.val new))
  unfolding set
  set_lem new p = refl

  set_none_lem :
      (new : Value) (p : Property) (ro : Bool)
      → p.readonly ≡ ro
      → IsPointsIntoDouble p.val new ⊎ ((v : Value) × (autoconvert p.val new ≡ some v))
      → (if ro then some (p, []) else write p (autoconvert p.val new)) ≡ none
      → (p.readonly ≡ false) × IsPointsIntoDouble p.val new
  set_none_lem new p true e o h = absurd (cc)
  set_none_lem new p false e (inl points) h = (e, points)
  set_none_lem new p false e (inr (v, c)) h = absurd (cc (ap (write p) c))

  -- The only set that fails is that of a point list on a `double` property that is not read-only.
  pub set-eq-none_iff :
      (new : Value) (p : Property)
      → (set new p ≡ none) ↔ ((p.readonly ≡ false) × IsPointsIntoDouble p.val new)
  set-eq-none_iff new p = (
    λ h. set_none_lem new p p.readonly refl (autoconvert_fails p.val new) (sym (set_lem new p) ∙ h),
    λ h.
        set_lem new p
        ∙ ap₂ (λ ro o. if ro then some (p, []) else write p o) h.0 (autoconvert-none p.val new h.1),
  )

  -- The values that `%d` and `true`/`false` print, and every text.
  abbrev pub IsPrintable : Value → Type 0
  IsPrintable (bool b) = Unit
  IsPrintable (string s) = Unit
  IsPrintable (integer z) = IsInt32 z
  IsPrintable (double d) = ⊥
  IsPrintable (pointlist l) = ⊥

  autoconvert-convert_to_string :
      (v : Value) → IsPrintable v → autoconvert v (string (convert_to_string v)) ≡ some v
  unfolding autoconvert convert_to_string convert_to_bool convert_to_integer
  autoconvert-convert_to_string (bool true) h = unfold text_eq in refl
  autoconvert-convert_to_string (bool false) h = unfold text_eq in refl
  autoconvert-convert_to_string (string s) h = refl
  autoconvert-convert_to_string (integer z) h = rw (atoi-print_int z h)
  autoconvert-convert_to_string (double d) h = absurd h
  autoconvert-convert_to_string (pointlist l) h = absurd h

  -- Setting a property that is not read-only to its own printed value, which is what loading a
  -- saved pipeline does, changes nothing but runs the callbacks: for texts, Booleans and integers
  -- that fit an `int`.
  pub set-as_string :
      (p : Property)
      → p.readonly ≡ false
      → IsPrintable p.val
      → set (string (as_string p)) p ≡ some (p, p.callbacks)
  set-as_string p h k =
      set_lem (string (as_string p)) p
      ∙ ap₂ (λ ro o. if ro then some (p, []) else write p o) h
          (autoconvert-convert_to_string p.val k)

  stream_property_next :
      (f : ℕ) (p : Property) (l : List Point)
      → p.val ≡ pointlist l
      → stream_property (suc f) p ≡ stream_property f (new_property (pointlist l) [])
  unfolding stream_property
  stream_property_next f p l h = rw (h, stream_property)

  -- Printing a property that holds a point list with `<<` never returns: it calls the operator on
  -- a fresh property that holds the same list.
  pub stream_property_pointlist :
      (f : ℕ) (p : Property) (l : List Point) → p.val ≡ pointlist l → stream_property f p ≡ none
  stream_property_pointlist zero p l h = unfold stream_property in refl
  stream_property_pointlist (suc f) p l h =
      stream_property_next f p l h
      ∙ stream_property_pointlist f (new_property (pointlist l) []) l (unfold new_property in refl)
