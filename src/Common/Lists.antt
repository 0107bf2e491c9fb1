-- ===== src/Common/Lists.antt =====
-- Lists measured by the native numbers, under the library's names.
use Prim.Native.Nat.{ℕ, zero, suc, ◌+◌, ◌≤◌}
use mathlib.Core.Path.{◌≡◌, refl, ap}
use mathlib.Core.List.{List, [], ◌∷◌, ◌++◌, reverse, reverse-cons}
use native.Mathlib.Omega.{arith}

module _ {ℓ} {A : Type ℓ} where
  abbrev pub length : List A → ℕ
  length [] = 0
  length (x ∷ xs) = suc (length xs)

  pub length-append : (xs ys : List A) → length (xs ++ ys) ≡ length xs + length ys
  length-append [] ys = omega arith
  length-append (x ∷ xs) ys = omega (arith, length-append xs ys)

  -- A predicate holds of every element.
  abbrev pub All {κ} : (A → Type κ) → List A → Type κ
  All P [] = Unit
  All P (x ∷ xs) = P x × All P xs

  abbrev pub take : ℕ → List A → List A
  take zero xs = []
  take (suc n) [] = []
  take (suc n) (x ∷ xs) = x ∷ take n xs

module _ {ℓ} {A : Type ℓ} where
  length-reverse : (xs : List A) → length (reverse xs) ≡ length xs
  length-reverse [] = refl
  length-reverse (x ∷ xs) =
      omega (
        arith,
        ap length (reverse-cons x xs),
        length-append (reverse xs) (x ∷ []),
        length-reverse xs,
      )

  length-take_2 : (xs : List A) → 2 ≤ length xs → length (take 2 xs) ≡ 2
  length-take_2 [] h = absurd (omega arith)
  length-take_2 (x ∷ []) h = absurd (omega arith)
  length-take_2 (x ∷ y ∷ xs) h = refl

  -- What the last two entries tell of a list.
  pub take_2-nil : (xs : List A) → take 2 (reverse xs) ≡ [] → length xs ≡ 0
  take_2-nil [] h = refl
  take_2-nil (x ∷ []) h =
      absurd (omega (arith, ap length h, ap (λ l. length (take 2 l)) (reverse-cons x [])))
  take_2-nil (x ∷ y ∷ xs) h = absurd (
      omega (arith, ap length h, length-take_2 (reverse (x ∷ y ∷ xs)), length-reverse (x ∷ y ∷ xs)))

  pub take_2-single : (xs : List A) (c : A) → take 2 (reverse xs) ≡ c ∷ [] → xs ≡ c ∷ []
  take_2-single [] c h = absurd (omega (arith, ap length h))
  take_2-single (x ∷ []) c h = h
  take_2-single (x ∷ y ∷ xs) c h = absurd (
      omega (arith, ap length h, length-take_2 (reverse (x ∷ y ∷ xs)), length-reverse (x ∷ y ∷ xs)))

  pub take_2-pair :
      (xs : List A) (c d : A) (rest : List A) → take 2 (reverse xs) ≡ c ∷ d ∷ rest → 2 ≤ length xs
  take_2-pair [] c d rest h = absurd (omega (arith, ap length h))
  take_2-pair (x ∷ []) c d rest h = absurd (omega (arith, ap length h))
  take_2-pair (x ∷ y ∷ xs) c d rest h = omega arith
