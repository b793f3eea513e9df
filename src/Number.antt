-- ===== src/Number.antt =====
-- Decimal numbers as the C library prints and reads them: `%d` and `atoi`, which
-- src/moProperty.cpp, src/moPipeline.cpp and src/movid.cpp use for properties and indices.
pub mod RoundTrip
use movid.Base.{
  ℕ, zero, suc, ◌+◌, ◌-◌, ◌*◌, ◌/◌, ◌%◌, Text, ℤ, pos, negsuc, to_int32, Bool, true, false, List,
  [], ◌∷◌, ◌++◌, ltb, leb, ◌==◌, if◌then◌else◌, ◌&&◌, ◌||◌,
}

-- The digits of a number, by fuel.
unfoldable pub print_digits : ℕ → ℕ → Text
print_digits zero n = []
print_digits (suc f) n =
    let high = print_digits f (n / 10) in
    if ltb n 10 then (48 + n) ∷ [] else high ++ (48 + n % 10) ∷ []

unfoldable pub print_nat : ℕ → Text
unfolding print_digits
print_nat n = print_digits (suc n) n

-- `snprintf(buffer, sizeof(buffer), "%d", value)`: the buffer of 64 bytes holds every `int`
unfoldable pub print_int : ℤ → Text
unfolding print_nat
print_int (pos n) = print_nat n
print_int (negsuc n) = 45 ∷ print_nat (suc n)

abbrev pub is_digit : ℕ → Bool
is_digit c = leb 48 c && leb c 57

-- `isspace` of the C locale
abbrev pub is_space : ℕ → Bool
is_space c = c == 32 || (leb 9 c && leb c 13)

unfoldable pub read_digits : ℕ → Text → ℕ
read_digits n [] = n
read_digits n (c ∷ s) =
    let rest = read_digits (n * 10 + (c - 48)) s in if is_digit c then rest else n

unfoldable pub skip_spaces : Text → Text
skip_spaces [] = []
skip_spaces (c ∷ s) = let rest = skip_spaces s in if is_space c then rest else c ∷ s

-- -n
abbrev pub negate : ℕ → ℤ
negate zero = pos 0
negate (suc n) = negsuc n

-- `strtol` stays inside `long`.
abbrev pub long_max : ℕ
long_max = 9223372036854775807

abbrev pub clamp : ℕ → ℕ → ℕ
clamp limit n = if ltb limit n then limit else n

unfoldable pub read_signed : Text → ℤ
unfolding read_digits
read_signed [] = pos 0
read_signed (c ∷ s) =
    if c == 45
    then negate (clamp (long_max + 1) (read_digits 0 s))
    else if c == 43
    then pos (clamp long_max (read_digits 0 s))
    else pos (clamp long_max (read_digits 0 (c ∷ s)))

-- `atoi`: `(int)strtol(s, NULL, 10)`
unfoldable pub atoi : Text → ℤ
unfolding skip_spaces read_signed to_int32
atoi s = to_int32 (read_signed (skip_spaces s))
