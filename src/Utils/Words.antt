-- ===== src/Utils/Words.antt =====
-- `inList` of src/moUtils.cpp against a reference: the words of a list.
use movid.Base.{
  ℕ, ◌≢◌, zero, suc, ◌+◌, ◌<◌, ◌≤◌, ◌≡◌, refl, ap, ◌∙◌, inl, inr, Text, true, Option, none, some,
  List, [], ◌∷◌, any, length, take, drop, arith, text_eq, Option-cases, length-drop,
}
use movid.Utils.Split.{split, split-none, split-some}
use movid.Utils.{
  mem, find_first_of, find_first_not_of, find_of_at, find_not_of_at, piece, in_list_loop, in_list,
}

abbrev pub nonempty : List Text → List Text
nonempty [] = []
nonempty ([] ∷ ws) = nonempty ws
nonempty ((c ∷ w) ∷ ws) = (c ∷ w) ∷ nonempty ws

-- The maximal runs of characters outside `d`.
unfoldable pub words : Text → Text → List Text
words d s = nonempty (split d s)

words_nil : (d : Text) → words d [] ≡ []
unfolding words split
words_nil d = refl

words_cons : (d : Text) (c : ℕ) (t : Text) → mem c d ≡ true → words d (c ∷ t) ≡ words d t
unfolding words split
words_cons d c t h = rw h

-- Leading delimiters do not count.
words_skip_none : (d t : Text) → find_first_not_of d t ≡ none → words d t ≡ []
unfolding find_first_not_of
words_skip_none d [] h = unfold words split in refl
words_skip_none d (c ∷ t) h = ground (arith, words_cons d c t, words_skip_none d t)

abbrev Opens : Text → Text → Type 0
Opens d u = (find_first_of d u ≢ some 0) × (0 < length u)

words_skip :
    (d t : Text) (n : ℕ)
    → find_first_not_of d t ≡ some n
    → (words d t ≡ words d (drop n t)) × Opens d (drop n t)
unfolding find_first_not_of
words_skip d [] n h = cc
words_skip d (c ∷ t) zero h = unfold find_first_of in ground arith
words_skip d (c ∷ t) (suc n) h = ground (arith, words_cons d c t, words_skip d t n)

words_end : (d u : Text) → Opens d u → find_first_of d u ≡ none → words d u ≡ u ∷ []
words_end d [] o h = absurd (omega arith)
words_end d (c ∷ u) o h = unfold words in rw (split-none d (c ∷ u) h)

words_delim :
    (d u : Text) (m : ℕ)
    → find_first_of d u ≡ some m
    → words d (drop (suc m) u) ≡ words d (drop m u)
unfolding find_first_of
words_delim d [] m h = cc
words_delim d (c ∷ u) zero h = ground (arith, words_cons d c u)
words_delim d (c ∷ u) (suc m) h = ground (arith, words_delim d u m)

words_next_lem :
    (d s : Text) (c : ℕ) (w rest : Text)
    → split d s ≡ (c ∷ w) ∷ split d rest
    → words d s ≡ (c ∷ w) ∷ words d rest
unfolding words
words_next_lem d s c w rest e = rw e

words_next :
    (d u : Text) (m : ℕ)
    → Opens d u
    → find_first_of d u ≡ some m
    → (words d u ≡ take m u ∷ words d (drop m u)) × (0 < m) × (m < length u)
words_next d [] m o h = absurd (omega arith)
words_next d (c ∷ u) zero o h = absurd (o.0 h)
words_next d (c ∷ u) (suc m) o h =
    let cut = split-some d (c ∷ u) (suc m) h in
    let rest = words_delim d (c ∷ u) (suc m) h in
    (
      words_next_lem d (c ∷ u) c (take m u) _ cut.0 ∙ ap (λ ws. take (suc m) (c ∷ u) ∷ ws) rest,
      omega arith,
      cut.1,
    )

drop_nil : (n : ℕ) → drop {A = ℕ} n [] ≡ []
drop_nil zero = refl
drop_nil (suc n) = refl

drop-drop : (p n : ℕ) (s : Text) → drop n (drop p s) ≡ drop (p + n) s
drop-drop zero n s = ground arith
drop-drop (suc p) n [] = ground (arith, drop_nil n, drop_nil (suc p + n))
drop-drop (suc p) n (c ∷ s) =
    let e : suc p + n ≡ suc (p + n) = omega arith in rw e (drop-drop p n s)

-- The text from a position, which may be `npos`.
abbrev from_pos : Option ℕ → Text → Text
from_pos none s = []
from_pos (some p) s = drop p s

words_start :
    (d s : Text) (p n : ℕ)
    → find_first_not_of d (drop p s) ≡ some n
    → (words d (drop p s) ≡ words d (drop (p + n) s))
      × Opens d (drop (p + n) s)
      × (length (drop (p + n) s) ≤ length (drop p s))
words_start d s p n e =
    let skip = words_skip d (drop p s) n e in
    (
      rw (drop-drop p n s) at skip.0,
      rw (drop-drop p n s) at skip.1,
      omega (arith, length-drop (p + n) s, length-drop p s),
    )

-- The loop from any position returns whether the pattern is a word of the rest of the list.
in_list_loop-words :
    (f : ℕ) (pattern s d : Text) (p : Option ℕ)
    → length (from_pos p s) < f
    → in_list_loop f pattern s d (find_not_of_at d s p) (find_of_at d s (find_not_of_at d s p))
      ≡ some (any (λ w. text_eq w pattern) (words d (from_pos p s)))
unfolding in_list_loop find_not_of_at find_of_at piece
in_list_loop-words zero pattern s d p h = elim h [ ]
in_list_loop-words (suc f) pattern s d none h = unfold words split in refl
in_list_loop-words (suc f) pattern s d (some p) h =
    elim (Option-cases (find_first_not_of d (drop p s))) [
      | inl e ↦ rw e (rw (words_skip_none d (drop p s) e))
      | inr (n, e) ↦
          let start = words_start d s p n e in
          rw (e, start.0)
            (elim (Option-cases (find_first_of d (drop (p + n) s))) [
              | inl e' ↦
                  rw (e', words_end d (drop (p + n) s) start.1 e')
                    (let rest = in_list_loop-words f pattern s d none (omega (arith, start.1)) in
                      ground (arith, rw (words_nil d) at rest))
              | inr (m, e') ↦
                  let next = words_next d (drop (p + n) s) m start.1 e' in
                  rw (e', next.0, drop-drop (p + n) m s)
                    (ground (
                      arith,
                      in_list_loop-words f pattern s d (some (p + n + m)) (
                          omega (
                            arith,
                            next,
                            start.2,
                            length-drop (p + n + m) s,
                            length-drop (p + n) s,
                          )),
                    ))
            ])
    ]

-- `inList` never throws, ends, and answers whether the pattern is one of the words of the list:
-- one of its maximal non-empty runs of characters that are no delimiters.
pub in_list-words :
    (pattern str d : Text)
    → in_list pattern str d ≡ some (any (λ w. text_eq w pattern) (words d str))
unfolding in_list
in_list-words pattern str d =
    in_list_loop-words (suc (length str)) pattern str d (some 0) (omega arith)
