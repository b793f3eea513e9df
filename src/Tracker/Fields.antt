-- ===== src/Tracker/Fields.antt =====
-- Reading a blob after a write of src/modules/moAbstractBlobTrackerModule.cpp: the properties
-- `blob_id` and `age`, which the tracker makes itself, and all others.
use movid.Base.{ℤ, Text, ◌≡◌, refl, ◌∙◌, sym, false, some, List, [], ◌∷◌, text_eq, text_eq_iff}
use movid.Base.Dict.{find, modify, text_key, find-insert, find-modify}
use movid.Blob.{Container, integer_at, set_at, put_at}
use movid.Float.{Floats}
use movid.Property.{Value, integer, new_property, set, autoconvert, convert_to_integer}
use movid.Utils.{bind_some}

-- Two lists of equal length, related element by element.
abbrev pub All2 : {A : Type 0} → (A → A → Type 0) → List A → List A → Type 0
All2 R [] [] = Unit
All2 R [] (y ∷ ys) = ⊥
All2 R (x ∷ xs) [] = ⊥
All2 R (x ∷ xs) (y ∷ ys) = R x y × All2 R xs ys

module _ ⦃F : Floats⦄ where
  -- The blob has its own integer property of that name.
  abbrev pub Holds : Text → ℤ → Container → Type 0
  Holds name z b = find name b ≡ some (new_property (integer z) [])

  pub Holds-integer_at :
      (name : Text) (z : ℤ) (b : Container) → Holds name z b → integer_at name b ≡ some z
  unfolding integer_at convert_to_integer new_property
  Holds-integer_at name z b h = rw h

  pub put_at_other :
      (n m : Text) (v : Value) (b : Container)
      → text_eq n m ≡ false
      → find m (put_at n v b) ≡ find m b
  unfolding put_at
  put_at_other n m v b h = find-insert n m (new_property v []) b ∙ rw h

  pub put_at_same : (n : Text) (z : ℤ) (b : Container) → Holds n z (put_at n (integer z) b)
  unfolding put_at
  put_at_same n z b =
      find-insert n n (new_property (integer z) []) b ∙ rw ((text_eq_iff n n).1 refl)

  pub set_at_other :
      (n m : Text) (v : Value) (b c : Container)
      → text_eq n m ≡ false
      → set_at n v b ≡ some c
      → find m c ≡ find m b
  unfolding set_at
  set_at_other n m v b c h e =
      let (p, ep, e1) = bind_some (find n b) _ c e in
      let (q, eq, e2) = bind_some (set v p) _ c e1 in
      let e3 : modify n (λ _. q.0) b ≡ c = cc in
      rw (sym e3) (find-modify n m (λ _. q.0) b ∙ rw h refl)

  pub set_at_same :
      (n : Text) (z y : ℤ) (b : Container)
      → Holds n z b
      → (c : Container) × (set_at n (integer y) b ≡ some c) × Holds n y c
  unfolding set_at set autoconvert new_property convert_to_integer
  set_at_same n z y b h = (
    modify n (λ _. new_property (integer y) []) b,
    rw (h) refl,
    find-modify n n (λ _. new_property (integer y) []) b ∙ rw ((text_eq_iff n n).1 refl, h) refl,
  )
