-- ===== src/Utils/Split.antt =====
-- `tokenize` of src/moUtils.cpp against a reference: cutting a text at every delimiter.
use movid.Base.{
  ℕ, zero, suc, ◌+◌, ◌<◌, ◌≡◌, refl, sym, ap, subst, ◌≢◌, inl, inr, Text, false, none, some, List,
  [], ◌∷◌, ◌++◌, if◌then◌else◌, any, length, take, drop, arith, All, length-drop, Option-cases,
  Bool-cases,
}
use movid.Utils.{mem, find_first_of, substr, tokenize_loop, tokenize}

abbrev cons_head : ℕ → List Text → List Text
cons_head c [] = (c ∷ []) ∷ []
cons_head c (w ∷ ws) = (c ∷ w) ∷ ws

-- The text cut at every character of `d`.
unfoldable pub split : Text → Text → List Text
split d [] = [] ∷ []
split d (c ∷ s) = let rest = split d s in if mem c d then [] ∷ rest else cons_head c rest

-- The words with one separator between neighbours.
unfoldable pub join : ℕ → List Text → Text
join d [] = []
join d (w ∷ []) = w
join d (w ∷ v ∷ ws) = w ++ (d ∷ join d (v ∷ ws))

pub split-none : (d s : Text) → find_first_of d s ≡ none → split d s ≡ s ∷ []
unfolding find_first_of split
split-none d [] h = refl
split-none d (c ∷ s) h = ground (arith, split-none d s)

pub split-some :
    (d s : Text) (n : ℕ)
    → find_first_of d s ≡ some n
    → (split d s ≡ take n s ∷ split d (drop (suc n) s)) × (n < length s)
unfolding find_first_of split
split-some d [] n h = cc
split-some d (c ∷ s) zero h = ground arith
split-some d (c ∷ s) (suc n) h = ground (arith, split-some d s n)

-- One round: past the first delimiter there is a client, and it is shorter.
substr_cut :
    (s : Text) (n : ℕ)
    → n < length s
    → (substr s (n + 1) ≡ some (drop (suc n) s)) × (length (drop (suc n) s) < length s)
unfolding substr
substr_cut s n h = (ground arith, omega (arith, length-drop (suc n) s))

tokenize_loop-split :
    (f : ℕ) (s : Text) (d : ℕ) → length s < f → tokenize_loop f s (d ∷ []) ≡ some (split (d ∷ []) s)
unfolding tokenize_loop
tokenize_loop-split zero s d h = elim h [ ]
tokenize_loop-split (suc f) [] d h = unfold split in refl
tokenize_loop-split (suc f) (c ∷ s) d h = elim (Option-cases (find_first_of (d ∷ []) (c ∷ s))) [
  | inl e ↦ rw (e, tokenize_loop) (ap some (sym (split-none (d ∷ []) (c ∷ s) e)))
  | inr (n, e) ↦
      let cut = split-some (d ∷ []) (c ∷ s) n e in
      let client = substr_cut (c ∷ s) n cut.1 in
      rw (e, tokenize_loop)
        (rw client.0 (rw (tokenize_loop-split f (drop n s) d (omega arith)) (ap some (sym cut.0))))
]

-- With a single delimiter, which is how every caller uses it, `tokenize` never throws, ends, and
-- returns the text cut at every occurrence of the delimiter, empty pieces included.
pub tokenize-split : (s : Text) (d : ℕ) → tokenize s (d ∷ []) ≡ some (split (d ∷ []) s)
unfolding tokenize
tokenize-split s d = tokenize_loop-split (suc (length s)) s d (omega arith)

cons_head-join : (d c : ℕ) (ws : List Text) → ws ≢ [] → join d (cons_head c ws) ≡ c ∷ join d ws
unfolding join
cons_head-join d c [] h = absurd (h refl)
cons_head-join d c (w ∷ []) h = refl
cons_head-join d c (w ∷ v ∷ ws) h = refl

split-ne-nil : (d s : Text) → split d s ≢ []
unfolding split
split-ne-nil d [] h = cc
split-ne-nil d (c ∷ s) h = ground arith

join_nil : (d : ℕ) (ws : List Text) → ws ≢ [] → join d ([] ∷ ws) ≡ d ∷ join d ws
unfolding join
join_nil d [] h = absurd (h refl)
join_nil d (w ∷ ws) h = refl

join-split_cons :
    (d c : ℕ) (s : Text) → join d (split (d ∷ []) s) ≡ s → join d (split (d ∷ []) (c ∷ s)) ≡ c ∷ s
join-split_cons d c s ih =
    unfold split mem in
    ground (
      arith,
      split-ne-nil (d ∷ []) s,
      join_nil d (split (d ∷ []) s),
      cons_head-join d c (split (d ∷ []) s),
    )

pub join-split : (d : ℕ) (s : Text) → join d (split (d ∷ []) s) ≡ s
join-split d [] = unfold split join in refl
join-split d (c ∷ s) = join-split_cons d c s (join-split d s)

-- No piece holds a delimiter.
abbrev pub IsFree : Text → Text → Type 0
IsFree d w = any (λ c. mem c d) w ≡ false

split-IsFree : (d s : Text) → All (IsFree d) (split d s)
unfolding split
split-IsFree d [] = (refl, tt)
split-IsFree d (c ∷ s) = elim (Bool-cases (mem c d)) [
  | inl e ↦ rw e (refl, split-IsFree d s)
  | inr e ↦ rw e (cons_free (split d s) (split-IsFree d s) e)
]
  where
    cons_free :
        (ws : List Text) → All (IsFree d) ws → mem c d ≡ false → All (IsFree d) (cons_head c ws)
    cons_free [] a e = (rw e, tt)
    cons_free (w ∷ ws) a e = (rw e a.0, a.1)

-- `tokenize` with a single delimiter returns words that hold no delimiter and that give the text
-- back when they are joined by it.
pub join-tokenize :
    (s : Text) (d : ℕ) (ws : List Text)
    → tokenize s (d ∷ []) ≡ some ws
    → (join d ws ≡ s) × All (IsFree (d ∷ [])) ws
join-tokenize s d ws h = (ground (arith, tokenize-split s d, join-split d s), words_free)
  where
    same : split (d ∷ []) s ≡ ws
    same = ground (arith, tokenize-split s d)

    words_free : All (IsFree (d ∷ [])) ws
    words_free = subst (All (IsFree (d ∷ []))) same (split-IsFree (d ∷ []) s)
