-- ===== src/Valid/Ports.antt =====
-- Connecting and disconnecting keeps the daemon's objects well formed: `setInput` of
-- src/moModule.cpp and `removeObservers` of src/moDataStream.cpp.
use movid.Base.{
  ℕ, suc, ◌+◌, ◌<◌, ◌≡◌, refl, ap, ◌∙◌, inl, inr, Text, ℤ, pos, true, Option, none, some, [], ◌∷◌,
  arith, eq_ℤ_iff, length, Bool-cases, Option-cases,
}
use movid.Base.Dict.{Dict, find, modify, int_key}
use movid.Float.{Floats}
use movid.World.{Info, Port, World}
use movid.DataStream.{erase, is_stream_valid, add_observer, remove_observer}
use movid.Module.Ports.{
  same_stream, stream_of, set_error, write_input, disconnect, check_input, set_input,
}
use movid.Module.Links.{ports_on, set_input-IsLinked}
use movid.Valid.{Numbered, IsSound, IsValid, IsQuiet, IsQuiet-IsSound, write_module-IsQuiet}

Numbered-modify :
    (i : ℕ) (n : ℤ) (x : Option ℕ) (ps : Dict ℤ Port)
    → Numbered i ps
    → Numbered i (modify n (λ p. record p { stream = x }) ps)
unfolding modify
Numbered-modify i n x [] h = tt
Numbered-modify i n x ((k, p) ∷ ps) h = ground (arith, h.0, Numbered-modify (suc i) n x ps h.1)

module _ ⦃F : Floats⦄ where
  pub set_error-IsQuiet : (m : ℕ) (msg : Text) (w : World) → IsQuiet w (set_error m msg w)
  unfolding set_error
  set_error-IsQuiet m msg w = write_module-IsQuiet m _ w refl refl

  pub remove_observer-IsSound : (s m : ℕ) (w : World) → IsSound w → IsSound (remove_observer s m w)
  unfolding remove_observer erase
  remove_observer-IsSound s m w h = record {
    fresh_module = h.fresh_module;
    fresh_stream = λ t k. ground (arith, h.fresh_stream t k);
    outputs_old = h.outputs_old;
    elements_old = h.elements_old;
    numbered = h.numbered;
    classes = h.classes;
    once = h.once;
    freed_old = h.freed_old;
  }

  add_observer-IsSound :
      (s m : ℕ) (w : World) → s < w.next_stream → IsSound w → IsSound (add_observer s m w)
  unfolding add_observer
  add_observer-IsSound s m w old h = record {
    fresh_module = h.fresh_module;
    fresh_stream = λ t k. ground (arith, h.fresh_stream t k);
    outputs_old = h.outputs_old;
    elements_old = h.elements_old;
    numbered = h.numbered;
    classes = h.classes;
    once = h.once;
    freed_old = h.freed_old;
  }

  pub write_input-IsSound :
      (m : ℕ) (n : ℤ) (x : Option ℕ) (w : World)
      → m < w.next_module
      → IsSound w
      → IsSound (write_input m n x w)
  unfolding write_input
  write_input-IsSound m n x w old h = record {
    fresh_module = λ o s k. ground (arith, h.fresh_module o s k);
    fresh_stream = h.fresh_stream;
    outputs_old = λ o k s e. ground (arith, h.outputs_old o k s);
    elements_old = h.elements_old;
    numbered = λ o.
        ground (arith, h.numbered o, Numbered-modify 0 n x (w.modules m).inputs (h.numbered m));
    classes = h.classes;
    once = h.once;
    freed_old = h.freed_old;
  }

  -- A stream that is allocated, or none.
  abbrev pub IsOld : Option ℕ → World → Type 0
  IsOld none w = Unit
  IsOld (some s) w = s < w.next_stream

  disconnect-IsSound : (x : Option ℕ) (m : ℕ) (w : World) → IsSound w → IsSound (disconnect x m w)
  disconnect-IsSound none m w h = h
  disconnect-IsSound (some s) m w h = remove_observer-IsSound s m w h

  next-disconnect :
      (x : Option ℕ) (m : ℕ) (w : World)
      → ((disconnect x m w).next_module ≡ w.next_module)
        × ((disconnect x m w).next_stream ≡ w.next_stream)
        × ((disconnect x m w).elements ≡ w.elements)
  unfolding remove_observer
  next-disconnect none m w = (refl, refl, refl)
  next-disconnect (some s) m w = (refl, refl, refl)

  check_input-IsSound :
      (m : ℕ) (n : ℤ) (info : Info) (x : Option ℕ) (w : World)
      → m < w.next_module
      → IsOld x w
      → IsSound w
      → IsSound (check_input m n info x w)
  unfolding check_input
  check_input-IsSound m n info none w old stream_old h = h
  check_input-IsSound m n info (some s) w old stream_old h =
      elim (Bool-cases (is_stream_valid info (w.streams s).format)) [
        | inl e ↦ rw e (add_observer-IsSound s m w stream_old h)
        | inr e ↦ rw e (
            write_input-IsSound m n none _ (unfold set_error in old)
              (IsQuiet-IsSound (set_error-IsQuiet m _ w) h))
      ]

  written-IsOld :
      (m : ℕ) (n : ℤ) (x y : Option ℕ) (w : World)
      → (m < w.next_module → m < (write_input m n x (disconnect y m w)).next_module)
        × (IsOld x w → IsOld x (write_input m n x (disconnect y m w)))
  unfolding write_input remove_observer
  written-IsOld m n none none w = (λ h. h, λ h. h)
  written-IsOld m n none (some t) w = (λ h. h, λ h. h)
  written-IsOld m n (some s) none w = (λ h. h, λ h. h)
  written-IsOld m n (some s) (some t) w = (λ h. h, λ h. h)

  set_input-IsSound :
      (m : ℕ) (n : ℤ) (x : Option ℕ) (w : World)
      → m < w.next_module
      → IsOld x w
      → IsSound w
      → IsSound (set_input m n x w)
  unfolding set_input
  set_input-IsSound m n x w old stream_old h = elim (Option-cases (find n (w.modules m).inputs)) [
    | inl e ↦ rw (e, set_input) (IsQuiet-IsSound (set_error-IsQuiet m _ w) h)
    | inr (p, e) ↦
        let later = written-IsOld m n x p.stream w in
        rw (e, set_input)
          (check_input-IsSound m n p.info x (write_input m n x (disconnect p.stream m w))
            (later.0 old) (later.1 stream_old)
            (write_input-IsSound m n x (disconnect p.stream m w)
              (rw (next-disconnect p.stream m w).0 old) (disconnect-IsSound p.stream m w h)))
  ]

  -- In a well-formed daemon, connecting an input of an allocated module to an allocated stream,
  -- or to none, keeps the objects well formed, on every branch of `setInput`.
  pub set_input-IsValid :
      (m : ℕ) (n : ℤ) (x : Option ℕ) (w : World)
      → m < w.next_module
      → IsOld x w
      → IsValid w
      → IsValid (set_input m n x w)
  set_input-IsValid m n x w old stream_old h = record {
    linked = set_input-IsLinked m n x w h.linked;
    sound = set_input-IsSound m n x w old stream_old h.sound;
  }

pub find_head :
    (n : ℤ) (k : ℕ) (p : Port) (ps : Dict ℤ Port) → n ≡ pos k → find (pos k) ((n, p) ∷ ps) ≡ some p
unfolding find
find_head n k p ps e = ground (arith, eq_ℤ_iff n (pos k))

pub find_tail :
    (n : ℤ) (i k : ℕ) (p : Port) (ps : Dict ℤ Port)
    → n ≡ pos i
    → i < k
    → find (pos k) ((n, p) ∷ ps) ≡ find (pos k) ps
unfolding find
find_tail n i k p ps e lt = ground (arith, eq_ℤ_iff n (pos k))

held_stream : (s : ℕ) (x : Option ℕ) → same_stream x (some s) ≡ true → x ≡ some s
held_stream s none h = cc
held_stream s (some t) h = ground arith

-- An input that holds the stream is found under its number.
pub Numbered-hit :
    (s i : ℕ) (ps : Dict ℤ Port)
    → Numbered i ps
    → 0 < ports_on s ps
    → (j : ℕ) × (j < length ps) × (stream_of (find (pos (i + j)) ps) ≡ some s)
unfolding ports_on
Numbered-hit s i [] h k = absurd (omega arith)
Numbered-hit s i ((n, p) ∷ ps) h k = elim (Bool-cases (same_stream p.stream (some s))) [
  | inl e ↦
      let here : i + 0 ≡ i = omega arith in
      (0, omega arith, rw here (ap stream_of (find_head n i p ps h.0) ∙ held_stream s p.stream e))
  | inr e ↦
      let (j, a, b) = Numbered-hit s (suc i) ps h.1 (ground arith) in
      let there : i + suc j ≡ suc i + j = omega arith in
      (
        suc j,
        omega (arith, a),
        rw there (ap stream_of (find_tail n i (suc i + j) p ps h.0 (omega arith)) ∙ b),
      )
]
