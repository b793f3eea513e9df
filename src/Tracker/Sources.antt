-- ===== src/Tracker/Sources.antt =====
-- Where the ids come from that src/modules/moGreedyBlobTrackerModule.cpp and
-- src/modules/moMunkresBlobTrackerModule.cpp give: an old blob of the tracker, or the counter.
use movid.Base.{
  ℕ, suc, ◌≤◌, ◌<◌, ℤ, pos, negsuc, eq_ℤ, eq_ℤ_iff, ◌≡◌, refl, ◌∙◌, ap, ◌≢◌, ◌⊎◌, inl, inr, sym,
  Bool, true, false, ◌||◌, Option, none, some, List, [], ◌∷◌, ◌++◌, any, if◌then◌else◌, All, arith,
  Bool-cases,
}
use movid.Tracker.Ids.{NotIn, IsBetween}

-- `pincrement` below the largest `int`
abbrev pub Counts : (ℤ → ℤ × ℤ) → Type 0
Counts pincrement = (n : ℕ) → suc n < 2147483648 → pincrement (pos n) ≡ (pos (suc n), pos (suc n))

pub any-NotIn : (z : ℤ) (zs : List ℤ) → any (λ id. eq_ℤ id z) zs ≡ false → NotIn z zs
any-NotIn z [] h = tt
any-NotIn z (y ∷ zs) h = elim (Bool-cases (eq_ℤ y z)) [
  | inl e ↦ cc (ap (λ b. b || any (λ id. eq_ℤ id z) zs) (sym e) ∙ h)
  | inr e ↦ (
    (λ same. cc ((eq_ℤ_iff y z).1 same)),
    any-NotIn z zs (ap (λ b. b || any (λ id. eq_ℤ id z) zs) (sym e) ∙ h),
  )
]

pub skipped :
    {A : Type 0} (t : Bool) (o : Option (Option A)) (d : A)
    → (if t then some none else o) ≡ some (some d)
    → t ≡ false
skipped true o d h = cc
skipped false o d h = refl

pub NotIn-append : (z y : ℤ) (zs : List ℤ) → NotIn z (zs ++ y ∷ []) → NotIn z zs × (y ≢ z)
NotIn-append z y [] h = (tt, h.0)
NotIn-append z y (x ∷ zs) h = let (a, b) = NotIn-append z y zs h.1 in ((h.0, a), b)

-- Where an id comes from, when the counter goes from `n` to `m`: from an old blob, below the first
-- counter `n0`, and not taken before; or from the counter.
abbrev pub Source : ℕ → List ℤ → ℕ → ℕ → ℤ → Type 0
Source n0 reused n m z = (IsBetween 0 n0 z × NotIn z reused) ⊎ IsBetween n m z

pub IsBetween-mono : (n m : ℕ) (z : ℤ) → n ≤ m → IsBetween 0 n z → IsBetween 0 m z
IsBetween-mono n m (pos k) h b = (b.0, omega arith)
IsBetween-mono n m (negsuc k) h b = b

pub IsBetween-disjoint :
    (n0 n m : ℕ) (y z : ℤ) → n0 ≤ n → IsBetween n m y → IsBetween 0 n0 z → y ≢ z
IsBetween-disjoint n0 n m (pos a) (pos b) h k l e = ground arith
IsBetween-disjoint n0 n m (pos a) (negsuc b) h k l e = absurd l
IsBetween-disjoint n0 n m (negsuc a) z h k l e = absurd k

pub IsBetween-next : (n m : ℕ) (y : ℤ) → IsBetween (suc n) m y → IsBetween n m y × (y ≢ pos (suc n))
IsBetween-next n m (pos a) h = ((omega arith, h.1), λ e. ground arith)
IsBetween-next n m (negsuc a) h = absurd h

pub Source-taken :
    (n0 n m : ℕ) (reused : List ℤ) (z y : ℤ)
    → n0 ≤ n
    → IsBetween 0 n0 z
    → Source n0 (reused ++ z ∷ []) n m y
    → Source n0 reused n m y × (y ≢ z)
Source-taken n0 n m reused z y h k (inl (a, b)) =
    let (c, d) = NotIn-append y z reused b in (inl (a, c), λ e. d (sym e))
Source-taken n0 n m reused z y h k (inr a) = (inr a, IsBetween-disjoint n0 n m y z h a k)

pub Source-fresh :
    (n0 n m : ℕ) (reused : List ℤ) (y : ℤ)
    → n0 ≤ n
    → Source n0 reused (suc n) m y
    → Source n0 reused n m y × (y ≢ pos (suc n))
Source-fresh n0 n m reused y h (inl (a, b)) = (
  inl (a, b),
  λ e. IsBetween-disjoint n0 n (suc n) (pos (suc n)) y h (omega arith, omega arith) a (sym e),
)
Source-fresh n0 n m reused y h (inr a) = let (b, c) = IsBetween-next n m y a in (inr b, c)

pub All-pair :
    (P Q : ℤ → Type 0) (z : ℤ) (zs : List ℤ)
    → ((y : ℤ) → P y → Q y × (y ≢ z))
    → All P zs
    → All Q zs × NotIn z zs
All-pair P Q z [] h a = (tt, tt)
All-pair P Q z (y ∷ zs) h a =
    let (b, c) = h y a.0 in let (d, e) = All-pair P Q z zs h a.1 in ((b, d), (c, e))

pub Source-IsBetween :
    (n m : ℕ) (zs : List ℤ) → n ≤ m → All (Source n [] n m) zs → All (IsBetween 0 m) zs
Source-IsBetween n m [] h a = a
Source-IsBetween n m (pos k ∷ zs) h (inl (a, b), c) =
    ((a.0, omega arith), Source-IsBetween n m zs h c)
Source-IsBetween n m (negsuc k ∷ zs) h (inl (a, b), c) = absurd a
Source-IsBetween n m (pos k ∷ zs) h (inr a, c) = ((omega arith, a.1), Source-IsBetween n m zs h c)
Source-IsBetween n m (negsuc k ∷ zs) h (inr a, c) = absurd a
