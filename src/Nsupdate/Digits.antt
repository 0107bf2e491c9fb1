-- ===== src/Nsupdate/Digits.antt =====
-- The numbers that a script holds.
use olimpo.Common.{
  ℕ, zero, suc, ◌+◌, ◌-◌, ◌*◌, ◌/◌, ◌%◌, ◌^◌, ◌<◌, ◌≡◌, ◌∙◌, refl, ap, inl, inr, true, false, some,
  [], ◌∷◌, ltb, arith, Text, Bool-cases, pos,
}
use native.Mathlib.Omega.{pow_step}
use olimpo.Network.Address.{is_digit}
use olimpo.Nsupdate.{print_digits, print_int}
use olimpo.Config.{read_digits}

read-digit :
    (a d : ℕ) (s : Text) → d < 10 → read_digits a ((48 + d) ∷ s) ≡ read_digits (a * 10 + d) s
unfolding read_digits
read-digit a d s h =
    let digit : is_digit (48 + d) ≡ true = ground arith in
    let value : a * 10 + (48 + d - 48) ≡ a * 10 + d = omega arith in rw (digit, value) refl

-- Within the fuel, what is printed before a text is read back.
read-print_digits :
    (fuel n : ℕ) (s : Text)
    → n < 10 ^ fuel
    → 0 < fuel
    → read_digits 0 (print_digits fuel n s) ≡ read_digits n s
unfolding print_digits
read-print_digits zero n s h k = absurd (omega arith)
read-print_digits (suc fuel) n s h k = elim (Bool-cases (ltb n 10)) [
  | inl t ↦ rw t (read-digit 0 n s (ground arith) ∙ ap (λ v. read_digits v s) (small n))
  | inr t ↦ rw t (
      read-print_digits fuel (n / 10) ((48 + n % 10) ∷ s) (smaller fuel n h) (positive fuel n h t)
      ∙ (read-digit (n / 10) (n % 10) s (omega arith) ∙ ap (λ v. read_digits v s) (whole n)))
]
  where
    power : (f : ℕ) → 10 ^ suc f ≡ 10 * 10 ^ f
    power f = pow_step 10 f

    small : (m : ℕ) → 0 * 10 + m ≡ m
    small m = omega arith

    whole : (m : ℕ) → m / 10 * 10 + m % 10 ≡ m
    whole m = omega arith

    smaller : (f m : ℕ) → m < 10 ^ suc f → m / 10 < 10 ^ f
    smaller f m l = omega (arith, power f)

    positive : (f m : ℕ) → m < 10 ^ suc f → ltb m 10 ≡ false → 0 < f
    positive zero m l t = absurd (ground arith)
    positive (suc f) m l t = omega arith

-- The fuel of twenty digits is enough for every number below 10 ^ 20, and so for the times to live of
-- 64 bits: the digits that a script holds are read back as the number that was printed.
pub print_int-reads_back : (n : ℕ) → n < 10 ^ 20 → read_digits 0 (print_int (pos n)) ≡ some n
unfolding print_int read_digits
print_int-reads_back n h = read-print_digits 20 n [] h (omega arith)
