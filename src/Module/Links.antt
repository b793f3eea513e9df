-- ===== src/Module/Links.antt =====
-- `setInput` and the observers: src/moModule.cpp and src/moDataStream.cpp keep, for each stream, one
-- entry of `observers` for each input that holds the stream.
use movid.Base.{
  ℕ, ◌+◌, ◌<◌, ◌≡◌, ◌≢◌, refl, sym, inl, inr, Text, ℤ, Bool, true, false, Option, none, some, List,
  [], ◌∷◌, ◌++◌, ◌==◌, if◌then◌else◌, arith, Bool-cases, Option-cases, eq_ℤ_iff,
}
use movid.Base.Dict.{Dict, find, modify, int_key, find-modify}
use movid.Float.{Floats}
use movid.World.{Info, Port, World}
use movid.DataStream.{erase, is_stream_valid, add_observer, remove_observer}
use movid.Module.Ports.{same_stream, set_error, write_input, disconnect, check_input, set_input}

abbrev pub one_if : Bool → ℕ
one_if true = 1
one_if false = 0

unfoldable pub count : ℕ → List ℕ → ℕ
count m [] = 0
count m (o ∷ os) = one_if (o == m) + count m os

-- How many inputs hold the stream.
unfoldable pub ports_on : ℕ → Dict ℤ Port → ℕ
ports_on s [] = 0
ports_on s ((n, p) ∷ ps) = one_if (same_stream p.stream (some s)) + ports_on s ps

pub count-snoc : (m o : ℕ) (os : List ℕ) → count m (os ++ o ∷ []) ≡ count m os + one_if (o == m)
unfolding count
count-snoc m o [] = ground arith
count-snoc m o (x ∷ os) = ground (arith, count-snoc m o os)

pub count-erase_ne : (m o : ℕ) (os : List ℕ) → o ≢ m → count m (erase o os) ≡ count m os
unfolding count erase
count-erase_ne m o [] h = refl
count-erase_ne m o (x ∷ os) h = ground (arith, count-erase_ne m o os h)

pub count-erase_self :
    (m : ℕ) (os : List ℕ) → 0 < count m os → count m (erase m os) + 1 ≡ count m os
unfolding count erase
count-erase_self m [] h = absurd (omega arith)
count-erase_self m (x ∷ os) h = ground (arith, count-erase_self m os)

pub ports_on_pos :
    (s : ℕ) (n : ℤ) (ps : Dict ℤ Port) (p : Port)
    → find n ps ≡ some p
    → p.stream ≡ some s
    → 0 < ports_on s ps
unfolding ports_on find
ports_on_pos s n [] p h e = cc
ports_on_pos s n ((k, q) ∷ ps) p h e = ground (arith, ports_on_pos s n ps p)

abbrev point_to : Option ℕ → Port → Port
point_to x p = record p { stream = x }

pub ports_on-modify :
    (s : ℕ) (n : ℤ) (x : Option ℕ) (ps : Dict ℤ Port) (p : Port)
    → find n ps ≡ some p
    → ports_on s (modify n (λ q. record q { stream = x }) ps)
        + one_if (same_stream p.stream (some s))
      ≡ ports_on s ps + one_if (same_stream x (some s))
unfolding ports_on find modify
ports_on-modify s n x [] p h = cc
ports_on-modify s n x ((k, q) ∷ ps) p h = ground (arith, ports_on-modify s n x ps p)

module _ ⦃F : Floats⦄ where
  -- Every stream lists each module as often as inputs of the module hold the stream.
  pub record IsLinked (w : World) : Type 0 where
    pub counted : (m s : ℕ) → count m (w.streams s).observers ≡ ports_on s (w.modules m).inputs

  abbrev holds : Option ℕ → ℕ → ℕ → ℕ → ℕ
  holds x m s o = if m == o then one_if (same_stream x (some s)) else 0

  -- Once the old stream is told, one entry of it is missing.
  count-disconnect :
      (m : ℕ) (n : ℤ) (w : World) (p : Port) (x : Option ℕ) (o s : ℕ)
      → IsLinked w
      → find n (w.modules m).inputs ≡ some p
      → p.stream ≡ x
      → count o ((disconnect x m w).streams s).observers + holds x m s o
        ≡ ports_on s (w.modules o).inputs
  unfolding remove_observer
  count-disconnect m n w p none o s l found e = ground (arith, l.counted o s)
  count-disconnect m n w p (some old) o s l found e = ground (
    arith,
    l.counted o s,
    l.counted m old,
    count-erase_self m (w.streams old).observers,
    count-erase_ne o m (w.streams old).observers,
    ports_on_pos old n (w.modules m).inputs p,
  )

  modules-disconnect : (m : ℕ) (x : Option ℕ) (w : World) → (disconnect x m w).modules ≡ w.modules
  unfolding remove_observer
  modules-disconnect m none w = refl
  modules-disconnect m (some s) w = refl

  -- The storage is written, and the new stream is not told yet.
  abbrev Awaits : Option ℕ → ℕ → World → Type 0
  Awaits x m w =
      (o s : ℕ) → count o (w.streams s).observers + holds x m s o ≡ ports_on s (w.modules o).inputs

  write_input-Awaits :
      (m : ℕ) (n : ℤ) (x y : Option ℕ) (w : World) (p : Port)
      → Awaits y m w
      → find n (w.modules m).inputs ≡ some p
      → p.stream ≡ y
      → Awaits x m (write_input m n x w)
  unfolding write_input
  write_input-Awaits m n x y w p h found e o s =
      ground (arith, h o s, ports_on-modify s n x (w.modules m).inputs p)

  Awaits-none : (m : ℕ) (w : World) → Awaits none m w → IsLinked w
  Awaits-none m w h = record { counted = λ o s. ground (arith, h o s) }

  add_observer-IsLinked :
      (m s' : ℕ) (w : World) → Awaits (some s') m w → IsLinked (add_observer s' m w)
  unfolding add_observer
  add_observer-IsLinked m s' w h = record {
    counted = λ o s. ground (arith, count-snoc o m (w.streams s').observers, h o s);
  }

  set_error-Awaits :
      (m : ℕ) (msg : Text) (x : Option ℕ) (w : World)
      → Awaits x m w
      → Awaits x m (set_error m msg w)
  unfolding set_error
  set_error-Awaits m msg x w h o s = ground (arith, h o s)

  pub set_error-IsLinked :
      (m : ℕ) (msg : Text) (w : World) → IsLinked w → IsLinked (set_error m msg w)
  unfolding set_error
  set_error-IsLinked m msg w l = record { counted = λ o s. ground (arith, l.counted o s) }

  inputs-set_error :
      (m : ℕ) (msg : Text) (w : World)
      → ((set_error m msg w).modules m).inputs ≡ (w.modules m).inputs
  unfolding set_error
  inputs-set_error m msg w = ground arith

  check_input-IsLinked :
      (m : ℕ) (n : ℤ) (info : Info) (x : Option ℕ) (w : World) (p : Port)
      → Awaits x m w
      → find n (w.modules m).inputs ≡ some p
      → p.stream ≡ x
      → IsLinked (check_input m n info x w)
  unfolding check_input
  check_input-IsLinked m n info none w p h found e = Awaits-none m w h
  check_input-IsLinked m n info (some s') w p h found e =
      elim (Bool-cases (is_stream_valid info (w.streams s').format)) [
        | inl valid ↦ rw valid (add_observer-IsLinked m s' w h)
        | inr wrong ↦ rw wrong (
            Awaits-none m _ (
              write_input-Awaits m n none (some s') _ p (set_error-Awaits m _ (some s') w h)
                (rw (inputs-set_error m _ w) found) e))
      ]

  found-write_input :
      (m : ℕ) (n : ℤ) (x : Option ℕ) (w : World) (p : Port)
      → find n (w.modules m).inputs ≡ some p
      → find n ((write_input m n x w).modules m).inputs ≡ some (point_to x p)
  unfolding write_input
  found-write_input m n x w p found =
      ground (arith, find-modify n n (point_to x) (w.modules m).inputs, eq_ℤ_iff n n)

  told :
      (m : ℕ) (n : ℤ) (w : World) (p : Port)
      → IsLinked w
      → find n (w.modules m).inputs ≡ some p
      → Awaits p.stream m (disconnect p.stream m w)
  told m n w p l e o s =
      rw (modules-disconnect m p.stream w) (count-disconnect m n w p p.stream o s l e refl)

  -- Connecting an input to a stream, or to none, keeps every stream's observers in step with the
  -- inputs that hold it, whether the call succeeds, names no input or is refused for its format.
  pub set_input-IsLinked :
      (m : ℕ) (n : ℤ) (x : Option ℕ) (w : World) → IsLinked w → IsLinked (set_input m n x w)
  unfolding set_input
  set_input-IsLinked m n x w l = elim (Option-cases (find n (w.modules m).inputs)) [
    | inl e ↦ rw (e, set_input) (set_error-IsLinked m _ w l)
    | inr (p, e) ↦
        let w' = disconnect p.stream m w in
        let found = rw (sym (modules-disconnect m p.stream w)) at e in
        let waits = write_input-Awaits m n x p.stream w' p (told m n w p l e) found refl in
        rw (e, set_input)
          (check_input-IsLinked m n p.info x (write_input m n x w') (point_to x p) waits
            (found-write_input m n x w' p found) refl)
  ]
