-- ===== src/Number/RoundTrip.antt =====
-- `atoi` reads back what `%d` prints.
use movid.Base.{
  ℕ, ◌≢◌, zero, suc, ◌+◌, ◌-◌, ◌*◌, ◌/◌, ◌%◌, ◌<◌, ◌≤◌, ◌≡◌, refl, inl, inr, Text, ℤ, pos, negsuc,
  IsInt32, to_int32_id, List, [], ◌∷◌, ◌++◌, ltb, arith, All, Bool-cases, ltb→lt,
}
use movid.Number.{
  print_digits, print_nat, print_int, read_digits, skip_spaces, negate, read_signed, atoi, long_max,
}

abbrev pub IsDigits : Text → Type 0
IsDigits = All (λ c. (48 ≤ c) × (c ≤ 57))

read_digits-append :
    (n : ℕ) (s t : Text) → IsDigits s → read_digits n (s ++ t) ≡ read_digits (read_digits n s) t
unfolding read_digits
read_digits-append n [] t h = refl
read_digits-append n (c ∷ s) t h = ground (arith, read_digits-append (n * 10 + (c - 48)) s t h.1)

All-append {ℓ} :
    {A : Type ℓ} (P : A → Type 0) (xs ys : List A) → All P xs → All P ys → All P (xs ++ ys)
All-append P [] ys h k = k
All-append P (x ∷ xs) ys h k = (h.0, All-append P xs ys h.1 k)

abbrev pub Prints : Text → ℕ → Type 0
Prints s n = IsDigits s × (read_digits 0 s ≡ n) × (s ≢ [])

append-ne-nil : (s : Text) (c : ℕ) → s ++ c ∷ [] ≢ []
append-ne-nil [] c e = cc
append-ne-nil (x ∷ s) c e = cc

append_digit :
    (s : Text) (q r n : ℕ) → Prints s q → r < 10 → n ≡ q * 10 + r → Prints (s ++ (48 + r) ∷ []) n
append_digit s q r n h small e = (
  All-append _ s ((48 + r) ∷ []) h.0 (omega arith),
  rw (read_digits-append 0 s ((48 + r) ∷ []) h.0) (unfold read_digits in ground arith),
  append-ne-nil s (48 + r),
)

print_digits-Prints : (f n : ℕ) → n < f → Prints (print_digits f n) n
unfolding print_digits read_digits
print_digits-Prints zero n h = elim h [ ]
print_digits-Prints (suc f) n h = elim (Bool-cases (ltb n 10)) [
  | inl small ↦ rw small (omega (arith, ltb→lt n 10 small), ground arith, λ e. cc)
  | inr large ↦
      let high = print_digits-Prints f (n / 10) (ground arith) in
      rw large (
        append_digit (print_digits f (n / 10)) (n / 10) (n % 10) n high (omega arith) (omega arith))
]

pub print_nat-Prints : (n : ℕ) → Prints (print_nat n) n
unfolding print_nat
print_nat-Prints n = print_digits-Prints (suc n) n (omega arith)

-- A text of digits is no sign and has no spaces to skip.
read_signed_digits :
    (s : Text) (n : ℕ) → Prints s n → n < long_max → (read_signed (skip_spaces s) ≡ pos n)
unfolding skip_spaces read_signed
read_signed_digits [] n h k = absurd (h.2 refl)
read_signed_digits (c ∷ s) n h k = ground (arith, h.0.0, h.1)

read_signed_minus :
    (s : Text) (n : ℕ) → Prints s n → n < long_max → read_signed (skip_spaces (45 ∷ s)) ≡ negate n
unfolding skip_spaces read_signed
read_signed_minus s n h k = ground (arith, h.1)

-- `atoi` returns every `int` that `%d` prints.
pub atoi-print_int : (z : ℤ) → IsInt32 z → atoi (print_int z) ≡ z
unfolding atoi print_int
atoi-print_int (pos n) h =
    rw (read_signed_digits (print_nat n) n (print_nat-Prints n) (omega arith))
      (to_int32_id (pos n) h)
atoi-print_int (negsuc n) h =
    rw (read_signed_minus (print_nat (suc n)) (suc n) (print_nat-Prints (suc n)) (omega arith))
      (to_int32_id (negsuc n) h)
