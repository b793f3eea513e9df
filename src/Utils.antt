-- ===== src/Utils.antt =====
-- src/moUtils.cpp: `tokenize` and `inList`, over the string searches of the C++ library.
-- `none` is an exception (`std::out_of_range`) or the end of the fuel.
pub mod Split
pub mod Words
use movid.Base.{
  ◌≡◌, refl, ℕ, zero, suc, ◌+◌, ◌-◌, Text, Bool, true, false, Option, none, some, List, [], ◌∷◌,
  ltb, ◌==◌, if◌then◌else◌, any, length, take, drop, text_eq, null,
}

infixl 5 ◌>>=◌
abbrev pub ◌>>=◌ {ℓ κ} : {A : Type ℓ} {B : Type κ} → Option A → (A → Option B) → Option B
none >>= f = none
some a >>= f = f a

-- What a chain that returns went through.
pub bind_some {ℓ κ} :
    {A : Type ℓ} {B : Type κ} (o : Option A) (f : A → Option B) (r : B)
    → (o >>= f) ≡ some r
    → (a : A) × (o ≡ some a) × (f a ≡ some r)
bind_some none f r h = cc
bind_some (some a) f r h = (a, refl, h)

pub some_inj {ℓ} : {A : Type ℓ} (a b : A) → some a ≡ some b → a ≡ b
some_inj a b h = cc

-- A position found in a suffix, as a position of the text.
abbrev pub after_one : Option ℕ → Option ℕ
after_one none = none
after_one (some n) = some (suc n)

abbrev pub after : ℕ → Option ℕ → Option ℕ
after p none = none
after p (some n) = some (p + n)

unfoldable pub mem : ℕ → Text → Bool
mem c d = any (λ x. c == x) d

-- `s.find_first_of(d)`; `none` is `npos`
unfoldable pub find_first_of : Text → Text → Option ℕ
find_first_of d [] = none
find_first_of d (c ∷ s) = if mem c d then some 0 else after_one (find_first_of d s)

unfoldable pub find_first_not_of : Text → Text → Option ℕ
find_first_not_of d [] = none
find_first_not_of d (c ∷ s) = if mem c d then after_one (find_first_not_of d s) else some 0

-- The searches from a position, which may itself be `npos`.
unfoldable pub find_of_at : Text → Text → Option ℕ → Option ℕ
find_of_at d s none = none
find_of_at d s (some p) = after p (find_first_of d (drop p s))

unfoldable pub find_not_of_at : Text → Text → Option ℕ → Option ℕ
find_not_of_at d s none = none
find_not_of_at d s (some p) = after p (find_first_not_of d (drop p s))

-- `s.substr(n)` throws past the end.
unfoldable pub substr : Text → ℕ → Option Text
substr s n = if ltb (length s) n then none else some (drop n s)

-- One round of `tokenize` cuts the text at the first delimiter character, and skips as many
-- characters as there are delimiters.
unfoldable pub tokenize_loop : ℕ → Text → Text → Option (List Text)
tokenize_loop zero client d = none
tokenize_loop (suc f) [] d = some ([] ∷ [])
tokenize_loop (suc f) (c ∷ s) d = elim (find_first_of d (c ∷ s)) [
  | none ↦ some ((c ∷ s) ∷ [])
  | some n ↦ (do
    client ← substr (c ∷ s) (n + length d)
    rest ← tokenize_loop f client d
    some (take n (c ∷ s) ∷ rest))
]

unfoldable pub tokenize : Text → Text → Option (List Text)
unfolding tokenize_loop
tokenize str delimiters = tokenize_loop (suc (length str)) str delimiters

-- `str.substr(last, pos - last)`, where `pos` may be `npos`
unfoldable pub piece : Text → ℕ → Option ℕ → Text
piece str last none = drop last str
piece str last (some pos) = take (pos - last) (drop last str)

unfoldable pub in_list_loop : ℕ → Text → Text → Text → Option ℕ → Option ℕ → Option Bool
in_list_loop zero pattern str d last pos = none
in_list_loop (suc f) pattern str d none none = some false
in_list_loop (suc f) pattern str d none (some pos) = none
in_list_loop (suc f) pattern str d (some last) pos =
    let last' = find_not_of_at d str pos in
    let rest = in_list_loop f pattern str d last' (find_of_at d str last') in
    if text_eq (piece str last pos) pattern then some true else rest

unfoldable pub in_list : Text → Text → Text → Option Bool
unfolding in_list_loop
in_list pattern str delimiters =
    let last = find_not_of_at delimiters str (some 0) in
    in_list_loop (suc (length str)) pattern str delimiters last (find_of_at delimiters str last)
