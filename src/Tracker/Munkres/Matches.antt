-- ===== src/Tracker/Munkres/Matches.antt =====
-- The matches of an assignment, as src/modules/moMunkresBlobTrackerModule.cpp reads them.
use movid.Utils.{some_inj}
use movid.Base.{
  ℕ, zero, suc, ◌≤◌, ℤ, pos, negsuc, ◌≡◌, refl, ◌∙◌, ap, ◌≢◌, ◌⊎◌, inl, inr, sym, subst, some, List,
  [], ◌∷◌, get_elem?, All, arith,
}
use movid.Tracker.Ids.{NotIn, Distinct, IsBetween}
use movid.Tracker.Sources.{IsBetween-disjoint, IsBetween-next}
use movid.Tracker.Munkres.{Matching}
use movid.Tracker.Sources.{IsBetween-mono}

-- No number of an old blob stands twice among the matches.
abbrev pub IsInjective : List ℤ → Type 0
IsInjective [] = Unit
IsInjective (pos j ∷ js) = NotIn (pos j) js × IsInjective js
IsInjective (negsuc j ∷ js) = IsInjective js

-- What `mtdev_match` returns: an assignment.
abbrev pub IsAssignment : Matching → Type 0
IsAssignment M = (A : List ℤ) (nn sn : ℕ) → IsInjective (M.mtdev_match A nn sn)

abbrev pub Picks : List ℤ → List ℤ → ℤ → Type 0
Picks [] sid z = ⊥
Picks (pos j ∷ js) sid z = (get_elem? sid j ≡ some z) ⊎ Picks js sid z
Picks (negsuc j ∷ js) sid z = Picks js sid z

pub get_elem?-All :
    (P : ℤ → Type 0) (sid : List ℤ) (j : ℕ) (x : ℤ) → All P sid → get_elem? sid j ≡ some x → P x
get_elem?-All P [] j x a h = cc
get_elem?-All P (y ∷ sid) zero x a h = subst P (some_inj y x h) a.0
get_elem?-All P (y ∷ sid) (suc j) x a h = get_elem?-All P sid j x a.1 h

pub get_elem?_once :
    (sid : List ℤ) (i j : ℕ) (x : ℤ)
    → Distinct sid
    → get_elem? sid i ≡ some x
    → get_elem? sid j ≡ some x
    → i ≡ j
get_elem?_once [] i j x d h k = cc
get_elem?_once (y ∷ sid) zero zero x d h k = refl
get_elem?_once (y ∷ sid) zero (suc j) x d h k =
    absurd (get_elem?-All (λ z. z ≢ y) sid j x d.0 k (sym (some_inj y x h)))
get_elem?_once (y ∷ sid) (suc i) zero x d h k =
    absurd (get_elem?-All (λ z. z ≢ y) sid i x d.0 h (sym (some_inj y x k)))
get_elem?_once (y ∷ sid) (suc i) (suc j) x d h k = ap suc (get_elem?_once sid i j x d.1 h k)

Picks-other :
    (js sid : List ℤ) (j : ℕ) (x z : ℤ)
    → Distinct sid
    → get_elem? sid j ≡ some x
    → NotIn (pos j) js
    → Picks js sid z
    → z ≢ x
Picks-other [] sid j x z d h n p e = p
Picks-other (pos i ∷ js) sid j x z d h n (inl g) e =
    n.0 (ap pos (get_elem?_once sid i j x d (g ∙ ap some e) h))
Picks-other (pos i ∷ js) sid j x z d h n (inr p) e = Picks-other js sid j x z d h n.1 p e
Picks-other (negsuc i ∷ js) sid j x z d h n p e = Picks-other js sid j x z d h n.1 p e

Picks-All : (P : ℤ → Type 0) (js sid : List ℤ) (z : ℤ) → All P sid → Picks js sid z → P z
Picks-All P [] sid z a p = absurd p
Picks-All P (pos j ∷ js) sid z a (inl g) = get_elem?-All P sid j z a g
Picks-All P (pos j ∷ js) sid z a (inr p) = Picks-All P js sid z a p
Picks-All P (negsuc j ∷ js) sid z a p = Picks-All P js sid z a p

-- Where an id comes from.
abbrev pub Origin : List ℤ → List ℤ → ℕ → ℕ → ℤ → Type 0
Origin js sid n m z = Picks js sid z ⊎ IsBetween n m z

pub Origin-matched :
    (js sid : List ℤ) (n0 n m j : ℕ) (x z : ℤ)
    → n0 ≤ n
    → Distinct sid
    → All (IsBetween 0 n0) sid
    → NotIn (pos j) js
    → get_elem? sid j ≡ some x
    → Origin js sid n m z
    → Origin (pos j ∷ js) sid n m z × (z ≢ x)
Origin-matched js sid n0 n m j x z le d a k h (inl p) =
    (inl (inr p), Picks-other js sid j x z d h k p)
Origin-matched js sid n0 n m j x z le d a k h (inr p) =
    (inr p, IsBetween-disjoint n0 n m z x le p (get_elem?-All (IsBetween 0 n0) sid j x a h))

pub Origin-fresh :
    (js sid : List ℤ) (n0 n m i : ℕ) (z : ℤ)
    → n0 ≤ n
    → All (IsBetween 0 n0) sid
    → Origin js sid (suc n) m z
    → Origin (negsuc i ∷ js) sid n m z × (z ≢ pos (suc n))
Origin-fresh js sid n0 n m i z le a (inl p) = (
  inl p,
  λ e.
      IsBetween-disjoint n0 n (suc n) (pos (suc n)) z le (omega arith, omega arith)
        (Picks-All (IsBetween 0 n0) js sid z a p) (sym e),
)
Origin-fresh js sid n0 n m i z le a (inr p) = let (b, c) = IsBetween-next n m z p in (inr b, c)

pub Origin-IsBetween :
    (js sid : List ℤ) (n m : ℕ) (zs : List ℤ)
    → n ≤ m
    → All (IsBetween 0 n) sid
    → All (Origin js sid n m) zs
    → All (IsBetween 0 m) zs
Origin-IsBetween js sid n m [] h a o = tt
Origin-IsBetween js sid n m (z ∷ zs) h a (inl p, o) = (
  IsBetween-mono n m z h (Picks-All (IsBetween 0 n) js sid z a p),
  Origin-IsBetween js sid n m zs h a o,
)
Origin-IsBetween js sid n m (z ∷ zs) h a (inr p, o) =
    (lower n m z p, Origin-IsBetween js sid n m zs h a o)
  where
    lower : (n m : ℕ) (z : ℤ) → IsBetween n m z → IsBetween 0 m z
    lower n m (pos k) b = (omega arith, b.1)
    lower n m (negsuc k) b = b
