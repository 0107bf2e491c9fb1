-- ===== src/Common/Sorting.antt =====
-- Sorting by a strict order given as a Boolean test, and the order of texts.
use mathlib.Core.Path.{◌≡◌, refl, subst}
use mathlib.Core.Logic.{inl, inr}
use mathlib.Core.Bool.{Bool, true, false, ◌&&◌, ◌||◌}
use mathlib.Core.List.{List, [], ◌∷◌, Permᴰ}
use mathlib.Core.List
use native.Mathlib.Omega.{arith}
use olimpo.Common.Tests.{if◌then◌else◌, ltb, nat_beq, Bool-cases, Text}
use olimpo.Common.Lists.{All}
use olimpo.Common.Rows.{select}

-- Go's and SQLite's order of texts, by bytes.
abbrev pub text_ltb : Text → Text → Bool
text_ltb s [] = false
text_ltb [] (y ∷ t) = true
text_ltb (x ∷ s) (y ∷ t) = ltb x y || (nat_beq x y && text_ltb s t)

module _ {A : Type 0} where
  -- A strict weak order.
  pub record IsOrder (less : A → A → Bool) : Type 0 where
    pub asym : (x y : A) → less x y ≡ true → less y x ≡ false
    pub apart : (x y z : A) → less x y ≡ false → less y z ≡ false → less x z ≡ false

  -- No row comes before an earlier one.
  abbrev pub Sorted : (A → A → Bool) → List A → Type 0
  Sorted less [] = Unit
  Sorted less (x ∷ xs) = All (λ y. less y x ≡ false) xs × Sorted less xs

  unfoldable pub insert : (A → A → Bool) → A → List A → List A
  insert less x [] = x ∷ []
  insert less x (y ∷ ys) = let rest = insert less x ys in if less y x then y ∷ rest else x ∷ y ∷ ys

  unfoldable pub sort : (A → A → Bool) → List A → List A
  unfolding insert
  sort less [] = []
  sort less (x ∷ xs) = insert less x (sort less xs)

  insert-Permᴰ : (less : A → A → Bool) (x : A) (xs : List A) → Permᴰ (x ∷ xs) (insert less x xs)
  unfolding insert
  insert-Permᴰ less x [] = List.Permᴰ.refl (x ∷ [])
  insert-Permᴰ less x (y ∷ ys) = elim (Bool-cases (less y x)) [
    | inl t ↦ rw t (
        Permᴰ.trans (Permᴰ.swap {a = x} {b = y} {a' = y} {b' = x} {l = ys} refl refl)
          (Permᴰ.cons refl (insert-Permᴰ less x ys)))
    | inr t ↦ rw t (List.Permᴰ.refl (x ∷ y ∷ ys))
  ]

  pub sort-Permᴰ : (less : A → A → Bool) (xs : List A) → Permᴰ xs (sort less xs)
  unfolding sort
  sort-Permᴰ less [] = Permᴰ.nil
  sort-Permᴰ less (x ∷ xs) =
      Permᴰ.trans (Permᴰ.cons refl (sort-Permᴰ less xs)) (insert-Permᴰ less x (sort less xs))

  All-insert :
      (P : A → Type 0) (less : A → A → Bool) (x : A) (xs : List A)
      → P x
      → All P xs
      → All P (insert less x xs)
  unfolding insert
  All-insert P less x [] p h = (p, tt)
  All-insert P less x (y ∷ ys) p h = elim (Bool-cases (less y x)) [
    | inl t ↦ rw t (h.0, All-insert P less x ys p h.1)
    | inr t ↦ rw t (p, h)
  ]

  All-apart :
      (less : A → A → Bool) (o : IsOrder less) (x y : A) (ys : List A)
      → less y x ≡ false
      → All (λ z. less z y ≡ false) ys
      → All (λ z. less z x ≡ false) ys
  All-apart less o x y [] t h = tt
  All-apart less o x y (z ∷ zs) t h = (o.apart z y x h.0 t, All-apart less o x y zs t h.1)

  insert-Sorted :
      (less : A → A → Bool) (o : IsOrder less) (x : A) (xs : List A)
      → Sorted less xs
      → Sorted less (insert less x xs)
  unfolding insert
  insert-Sorted less o x [] h = (tt, tt)
  insert-Sorted less o x (y ∷ ys) h = elim (Bool-cases (less y x)) [
    | inl t ↦ rw t (
      All-insert (λ z. less z y ≡ false) less x ys (o.asym y x t) h.0,
      insert-Sorted less o x ys h.1,
    )
    | inr t ↦ rw t ((t, All-apart less o x y ys t h.0), h)
  ]

  pub sort-Sorted :
      (less : A → A → Bool) (o : IsOrder less) (xs : List A) → Sorted less (sort less xs)
  unfolding sort
  sort-Sorted less o [] = tt
  sort-Sorted less o (x ∷ xs) = insert-Sorted less o x (sort less xs) (sort-Sorted less o xs)

  pub All-select : (P : A → Type 0) (p : A → Bool) (xs : List A) → All P xs → All P (select p xs)
  unfolding select
  All-select P p [] h = tt
  All-select P p (x ∷ xs) h = elim (Bool-cases (p x)) [
    | inl t ↦ rw t (h.0, All-select P p xs h.1)
    | inr t ↦ rw t (All-select P p xs h.1)
  ]

  pub select-Sorted :
      (less : A → A → Bool) (p : A → Bool) (xs : List A)
      → Sorted less xs
      → Sorted less (select p xs)
  unfolding select
  select-Sorted less p [] h = tt
  select-Sorted less p (x ∷ xs) h = elim (Bool-cases (p x)) [
    | inl t ↦ rw t (All-select (λ y. less y x ≡ false) p xs h.0, select-Sorted less p xs h.1)
    | inr t ↦ rw t (select-Sorted less p xs h.1)
  ]

  select_cons :
      (p : A → Bool) (a : A) (xs ys : List A)
      → Permᴰ (select p xs) (select p ys)
      → Permᴰ (select p (a ∷ xs)) (select p (a ∷ ys))
  unfolding select
  select_cons p a xs ys h = elim (Bool-cases (p a)) [
    | inl t ↦ rw t (Permᴰ.cons refl h)
    | inr t ↦ rw t h
  ]

  select_swap :
      (p : A → Bool) (a b : A) (xs : List A) → Permᴰ (select p (a ∷ b ∷ xs)) (select p (b ∷ a ∷ xs))
  unfolding select
  select_swap p a b xs = elim (Bool-cases (p a)) [
    | inl t ↦ elim (Bool-cases (p b)) [
      | inl u ↦ rw (t, u) (Permᴰ.swap refl refl)
      | inr u ↦ rw (t, u) (List.Permᴰ.refl (a ∷ select p xs))
    ]
    | inr t ↦ elim (Bool-cases (p b)) [
      | inl u ↦ rw (t, u) (List.Permᴰ.refl (b ∷ select p xs))
      | inr u ↦ rw (t, u) (List.Permᴰ.refl (select p xs))
    ]
  ]

  pub select-Permᴰ :
      (p : A → Bool) {xs ys : List A} → Permᴰ xs ys → Permᴰ (select p xs) (select p ys)
  select-Permᴰ p Permᴰ.nil = List.Permᴰ.refl (select p [])
  select-Permᴰ p (Permᴰ.cons {a = a} {b = b} {l₁ = l₁} {l₂ = l₂} e d) =
      subst (λ c. Permᴰ (select p (a ∷ l₁)) (select p (c ∷ l₂))) e
        (select_cons p a l₁ l₂ (select-Permᴰ p d))
  select-Permᴰ p (Permᴰ.swap {a = a} {b = b} {a' = a'} {b' = b'} {l = l} e f) =
      rw (e, f) (select_swap p b' a' l)
  select-Permᴰ p (Permᴰ.trans d e) = Permᴰ.trans (select-Permᴰ p d) (select-Permᴰ p e)

pub text_ltb-IsOrder : IsOrder text_ltb
text_ltb-IsOrder = record { asym = asym; apart = apart }
  where
    asym : (x y : Text) → text_ltb x y ≡ true → text_ltb y x ≡ false
    asym x [] h = absurd (ground arith)
    asym [] (b ∷ y) h = refl
    asym (a ∷ x) (b ∷ y) h = ground (arith, asym x y)

    apart : (x y z : Text) → text_ltb x y ≡ false → text_ltb y z ≡ false → text_ltb x z ≡ false
    apart x y [] h k = refl
    apart [] [] (c ∷ z) h k = absurd (ground arith)
    apart [] (b ∷ y) (c ∷ z) h k = absurd (ground arith)
    apart (a ∷ x) [] (c ∷ z) h k = absurd (ground arith)
    apart (a ∷ x) (b ∷ y) (c ∷ z) h k = ground (arith, apart x y z)
