-- ===== src/Base/Dict.antt =====
-- `std::map`: an association list that insertion keeps in the order of the keys.
use mathlib.Core.Path.{◌≡◌, refl}
use mathlib.Core.Logic.{◌↔◌}
use mathlib.Core.Bool.{Bool, true}
use mathlib.Core.List.{List, [], ◌∷◌}
use mathlib.Core.Option
use mathlib.Core.Option.{Option, none, some}
use native.Mathlib.Omega.{arith}
use Prim.Native.Nat.{ℕ}
use movid.Base.Tests.{if◌then◌else◌, ◌==◌, ltb, ==_iff}
use movid.Base.Bytes.{Text, text_eq, text_ltb, text_eq_iff}
use movid.Base.Int.{ℤ, eq_ℤ, ltb_ℤ, eq_ℤ_iff}

-- What `std::map` asks of its keys.
pub record Key (K : Type 0) : Type 0 where
  pub eq : K → K → Bool
  pub lt : K → K → Bool
  pub eq_iff : (a b : K) → (eq a b ≡ true) ↔ (a ≡ b)

instance abbrev pub text_key : Key Text
text_key = record { eq = text_eq; lt = text_ltb; eq_iff = text_eq_iff }

instance abbrev pub int_key : Key ℤ
int_key = record { eq = eq_ℤ; lt = ltb_ℤ; eq_iff = eq_ℤ_iff }

instance abbrev pub nat_key : Key ℕ
nat_key = record { eq = ◌==◌; lt = ltb; eq_iff = ==_iff }

abbrev pub Dict : Type 0 → Type 0 → Type 0
Dict K V = List (K × V)

module _ {K V : Type 0} ⦃k : Key K⦄ where
  unfoldable pub find : K → Dict K V → Option V
  find a [] = none
  find a ((b, v) ∷ m) = if k.eq b a then some v else find a m

  -- `m[a] = v`
  unfoldable pub insert : K → V → Dict K V → Dict K V
  insert a v [] = (a, v) ∷ []
  insert a v ((b, w) ∷ m) =
      if k.eq b a
      then (a, v) ∷ m
      else if k.lt a b
      then (a, v) ∷ (b, w) ∷ m
      else (b, w) ∷ insert a v m

  -- A write through the pointer that `m.find(a)` returns.
  unfoldable pub modify : K → (V → V) → Dict K V → Dict K V
  modify a f [] = []
  modify a f ((b, w) ∷ m) = if k.eq b a then (b, f w) ∷ m else (b, w) ∷ modify a f m

  unfoldable pub remove : K → Dict K V → Dict K V
  remove a [] = []
  remove a ((b, w) ∷ m) = if k.eq b a then m else (b, w) ∷ remove a m

  pub find-insert :
      (a c : K) (v : V) (m : Dict K V)
      → find c (insert a v m) ≡ (if k.eq a c then some v else find c m)
  unfolding find insert
  find-insert a c v [] = refl
  find-insert a c v ((b, w) ∷ m) =
      ground (arith, k.eq_iff a c, k.eq_iff b a, k.eq_iff b c, find-insert a c v m)

  pub find-modify :
      (a c : K) (f : V → V) (m : Dict K V)
      → find c (modify a f m) ≡ (if k.eq a c then Option.map f (find c m) else find c m)
  unfolding find modify
  find-modify a c f [] = ground arith
  find-modify a c f ((b, w) ∷ m) =
      ground (arith, k.eq_iff a c, k.eq_iff b a, k.eq_iff b c, find-modify a c f m)
