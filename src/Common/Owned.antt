-- ===== src/Common/Owned.antt =====
-- The rows of a table that do not belong to an owner, and the statements that leave them alone.
use Prim.Native.Nat.{ℕ, ◌<◌}
use mathlib.Core.Path.{◌≡◌, refl, ap, subst, ◌∙◌}
use mathlib.Core.Logic.{inl, inr}
use mathlib.Core.Bool.{Bool, true, false}
use mathlib.Core.Option.{some, some-injective}
use mathlib.Core.List.{List, [], ◌∷◌, ◌++◌}
use native.Mathlib.Omega.{arith}
use olimpo.Common.Tests.{if◌then◌else◌, nat_beq, nat_beq_iff, Bool-cases}
use olimpo.Common.Lists.{All}
use olimpo.Common.Rows.{find, update_rows, select, Ascending, find_above}

module _ {A : Type 0} (owner : A → ℕ) (d : ℕ) where
  abbrev pub is_foreign : A → Bool
  is_foreign x = if nat_beq (owner x) d then false else true

  -- The rows of other owners, in their order.
  abbrev pub foreign : List A → List A
  foreign = select is_foreign

  pub own-is_foreign : (x : A) → owner x ≡ d → is_foreign x ≡ false
  own-is_foreign x e = ground (arith, nat_beq_iff (owner x) d)

  pub foreign-update :
      (p : A → Bool) (f : A → A) (xs : List A)
      → All (λ x. p x ≡ true → (owner x ≡ d) × (owner (f x) ≡ d)) xs
      → foreign (update_rows p f xs) ≡ foreign xs
  unfolding select update_rows
  foreign-update p f [] h = refl
  foreign-update p f (x ∷ xs) h = elim (Bool-cases (p x)) [
    | inl t ↦
        let (own, own') = h.0 t in
        rw (t, own-is_foreign x own, own-is_foreign (f x) own') (foreign-update p f xs h.1)
    | inr t ↦ rw (t, foreign-update p f xs h.1) refl
  ]

  pub foreign-append :
      (xs ys : List A) → All (λ y. owner y ≡ d) ys → foreign (xs ++ ys) ≡ foreign xs
  unfolding select
  foreign-append [] [] h = refl
  foreign-append [] (y ∷ ys) h = rw (own-is_foreign y h.0) (foreign-append [] ys h.1)
  foreign-append (x ∷ xs) ys h = rw (foreign-append xs ys h) refl

  -- A deletion of rows of the owner.
  pub foreign-select :
      (p : A → Bool) (xs : List A)
      → ((x : A) → p x ≡ false → owner x ≡ d)
      → foreign (select p xs) ≡ foreign xs
  unfolding select
  foreign-select p [] h = refl
  foreign-select p (x ∷ xs) h = elim (Bool-cases (p x)) [
    | inl t ↦ rw (t, foreign-select p xs h) refl
    | inr t ↦ rw (t, own-is_foreign x (h x t)) (foreign-select p xs h)
  ]

module _ {A : Type 0} (id : A → ℕ) where
  -- A condition that every row of a table meets holds of the one that is found.
  pub All-of : (P : A → Type 0) (xs : List A) → ((x : A) → P x) → All P xs
  All-of P [] h = tt
  All-of P (x ∷ xs) h = (h x, All-of P xs h)

  away :
      (h : A) (xs : List A)
      → All (λ y. id h < id y) xs
      → All (λ y. nat_beq (id y) (id h) ≡ true → y ≡ h) xs
  away h [] a = tt
  away h (y ∷ ys) a = (λ t. absurd (ground (arith, nat_beq_iff (id y) (id h))), away h ys a.1)

  -- No other row has the key of a row that is found.
  pub find_unique :
      (p : A → Bool) (xs : List A) (h : A)
      → Ascending id xs
      → find p xs ≡ some h
      → All (λ y. nat_beq (id y) (id h) ≡ true → y ≡ h) xs
  unfolding find
  find_unique p [] h a e = cc
  find_unique p (x ∷ xs) h a e = elim (Bool-cases (p x)) [
    | inl t ↦
        let same : x ≡ h = some-injective x h (rw t at e) in
        (
          λ _. same,
          subst (λ z. All (λ y. nat_beq (id y) (id z) ≡ true → y ≡ z) xs) same (away x xs a.0),
        )
    | inr t ↦ (
      λ k.
          absurd (
            ground (arith, nat_beq_iff (id x) (id h), find_above id p (id x) xs h a.0 (rw t at e))),
      find_unique p xs h a.1 (rw t at e),
    )
  ]

module _ {A : Type 0} (id owner : A → ℕ) (d : ℕ) where
  own_rows :
      (p : A → Bool) (f : A → A) (xs : List A) (h : A)
      → ((y : A) → p y ≡ true → nat_beq (id y) (id h) ≡ true)
      → owner h ≡ d
      → owner (f h) ≡ d
      → All (λ y. nat_beq (id y) (id h) ≡ true → y ≡ h) xs
      → All (λ y. p y ≡ true → (owner y ≡ d) × (owner (f y) ≡ d)) xs
  own_rows p f [] h k own own' a = tt
  own_rows p f (x ∷ xs) h k own own' a = (
    λ t. (ap owner (a.0 (k x t)) ∙ own, ap (λ z. owner (f z)) (a.0 (k x t)) ∙ own'),
    own_rows p f xs h k own own' a.1,
  )

  -- The update of a row of the owner that alone has its key.
  pub foreign-update_keyed :
      (p : A → Bool) (f : A → A) (xs : List A) (h : A)
      → ((y : A) → p y ≡ true → nat_beq (id y) (id h) ≡ true)
      → All (λ y. nat_beq (id y) (id h) ≡ true → y ≡ h) xs
      → owner h ≡ d
      → owner (f h) ≡ d
      → foreign owner d (update_rows p f xs) ≡ foreign owner d xs
  foreign-update_keyed p f xs h k a own own' =
      foreign-update owner d p f xs (own_rows p f xs h k own own' a)

  pub foreign-update_row :
      (f : A → A) (xs : List A) (h : A)
      → All (λ y. nat_beq (id y) (id h) ≡ true → y ≡ h) xs
      → owner h ≡ d
      → owner (f h) ≡ d
      → foreign owner d (update_rows (λ y. nat_beq (id y) (id h)) f xs) ≡ foreign owner d xs
  foreign-update_row f xs h = foreign-update_keyed _ f xs h (λ y t. t)

  -- The update of rows of the owner, which stay its own.
  pub foreign-update_where :
      (p : A → Bool) (f : A → A) (xs : List A)
      → ((x : A) → p x ≡ true → owner x ≡ d)
      → ((x : A) → owner (f x) ≡ owner x)
      → foreign owner d (update_rows p f xs) ≡ foreign owner d xs
  foreign-update_where p f xs h k =
      foreign-update owner d p f xs (All-of id _ xs (λ x t. (h x t, k x ∙ h x t)))
