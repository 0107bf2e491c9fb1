-- ===== src/Common/Rows.antt =====
-- A table read as the list of its rows in primary-key order: selection, update and count by a
-- condition, and the laws that connect a row with its key.
use Prim.Native.Nat.{ℕ, suc, ◌<◌}
use mathlib.Core.Path.{◌≡◌, refl, sym, ap, subst, ◌∙◌}
use mathlib.Core.Logic.{◌⊎◌, inl, inr}
use mathlib.Core.Bool.{Bool, true, false, ◌||◌}
use mathlib.Core.Option.{Option, none, some, some-injective, none-ne-some}
use mathlib.Core.Option
use mathlib.Core.List.{List, [], ◌∷◌, ◌++◌}
use native.Mathlib.Omega.{arith}
use olimpo.Common.Tests.{if◌then◌else◌, nat_beq, nat_beq_iff, Bool-cases}
use olimpo.Common.Lists.{All}

module _ {A : Type 0} where
  -- The first row that meets a condition.
  unfoldable pub find : (A → Bool) → List A → Option A
  find p [] = none
  find p (x ∷ xs) = if p x then some x else find p xs

  unfoldable pub update_rows : (A → Bool) → (A → A) → List A → List A
  update_rows p f [] = []
  update_rows p f (x ∷ xs) = (if p x then f x else x) ∷ update_rows p f xs

  unfoldable pub count : (A → Bool) → List A → ℕ
  count p [] = 0
  count p (x ∷ xs) = let rest = count p xs in if p x then suc rest else rest

  unfoldable pub select : (A → Bool) → List A → List A
  select p [] = []
  select p (x ∷ xs) = let rest = select p xs in if p x then x ∷ rest else rest

  pub find_holds : (p : A → Bool) (xs : List A) (x : A) → find p xs ≡ some x → p x ≡ true
  unfolding find
  find_holds p [] x h = cc
  find_holds p (y ∷ ys) x h = elim (Bool-cases (p y)) [
    | inl t ↦ rw (← some-injective y x (rw t at h)) t
    | inr t ↦ find_holds p ys x (rw t at h)
  ]

  -- What a count of zero says of every row that another condition finds.
  pub find-count_zero :
      (p q : A → Bool) (xs : List A) (x : A) → count p xs ≡ 0 → find q xs ≡ some x → p x ≡ false
  unfolding find count
  find-count_zero p q [] x z h = cc
  find-count_zero p q (y ∷ ys) x z h = elim (Bool-cases (p y)) [
    | inl t ↦ absurd (ground arith)
    | inr t ↦ elim (Bool-cases (q y)) [
      | inl u ↦ rw (← some-injective y x (rw u at h)) t
      | inr u ↦ find-count_zero p q ys x (rw t at z) (rw u at h)
    ]
  ]

  pub find-count_pos :
      (p : A → Bool) (xs : List A) → 0 < count p xs → (x : A) × (find p xs ≡ some x)
  unfolding find count
  find-count_pos p [] h = absurd (omega arith)
  find-count_pos p (y ∷ ys) h = elim (Bool-cases (p y)) [
    | inl t ↦ (y, rw t refl)
    | inr t ↦ rw t (find-count_pos p ys (rw t at h))
  ]

module _ {A : Type 0} (id : A → ℕ) where
  -- `id = ?`
  abbrev pub by_id : ℕ → A → Bool
  by_id i x = nat_beq (id x) i

  -- Primary keys rise along the table, so no two rows share one.
  abbrev pub Ascending : List A → Type 0
  Ascending [] = Unit
  Ascending (x ∷ xs) = All (λ y. id x < id y) xs × Ascending xs

  pub find_above :
      (p : A → Bool) (n : ℕ) (xs : List A) (x : A)
      → All (λ y. n < id y) xs
      → find p xs ≡ some x
      → n < id x
  unfolding find
  find_above p n [] x a h = cc
  find_above p n (y ∷ ys) x a h = elim (Bool-cases (p y)) [
    | inl t ↦ rw (← some-injective y x (rw t at h)) a.0
    | inr t ↦ find_above p n ys x a.1 (rw t at h)
  ]

  -- A row that any condition finds is the row that its key finds.
  pub find-by_id :
      (p : A → Bool) (xs : List A) (x : A)
      → Ascending xs
      → find p xs ≡ some x
      → find (by_id (id x)) xs ≡ some x
  unfolding find
  find-by_id p [] x a h = cc
  find-by_id p (y ∷ ys) x a h = elim (Bool-cases (p y)) [
    | inl t ↦ let e : y ≡ x = some-injective y x (rw t at h) in rw e (ground arith)
    | inr t ↦
        ground (arith, find_above p (id y) ys x a.0 (rw t at h), find-by_id p ys x a.1 (rw t at h))
  ]

  find-update_above :
      (p : A → Bool) (f : A → A) (n : ℕ) (xs : List A)
      → ((x : A) → id (f x) ≡ id x)
      → All (λ y. n < id y) xs
      → All (λ y. n < id y) (update_rows p f xs)
  unfolding update_rows
  find-update_above p f n [] k a = tt
  find-update_above p f n (y ∷ ys) k a = ground (arith, k y, find-update_above p f n ys k a.1)

  pub update_rows-Ascending :
      (p : A → Bool) (f : A → A) (xs : List A)
      → ((x : A) → id (f x) ≡ id x)
      → Ascending xs
      → Ascending (update_rows p f xs)
  unfolding update_rows
  update_rows-Ascending p f [] k a = tt
  update_rows-Ascending p f (y ∷ ys) k a = (
    elim (Bool-cases (p y)) [
      | inl t ↦ rw (t, k y) (find-update_above p f (id y) ys k a.0)
      | inr t ↦ rw t (find-update_above p f (id y) ys k a.0)
    ],
    update_rows-Ascending p f ys k a.1,
  )

  -- An update keeps the keys, so the row of a key is the old row, updated if it meets the condition.
  pub find-update_rows :
      (p : A → Bool) (f : A → A) (i : ℕ) (xs : List A)
      → ((x : A) → id (f x) ≡ id x)
      → find (by_id i) (update_rows p f xs)
        ≡ Option.map (λ x. if p x then f x else x) (find (by_id i) xs)
  unfolding find update_rows
  find-update_rows p f i [] k = refl
  find-update_rows p f i (y ∷ ys) k = ground (arith, k y, find-update_rows p f i ys k)

  module _ (p : A → Bool) (f : A → A) (xs : List A) (keeps : (x : A) → id (f x) ≡ id x) where
    -- A row after an update comes from the row of the same key.
    pub find-update_inv :
        (i : ℕ) (y : A)
        → find (by_id i) (update_rows p f xs) ≡ some y
        → (x : A) × (find (by_id i) xs ≡ some x) × (y ≡ (if p x then f x else x))
    find-update_inv i y h = go (find (by_id i) xs) refl
      where
        go :
            (o : Option A)
            → find (by_id i) xs ≡ o
            → (x : A) × (find (by_id i) xs ≡ some x) × (y ≡ (if p x then f x else x))
        go none e = absurd (none-ne-some y (sym (rw e at (find-update_rows p f i xs keeps)) ∙ h))
        go (some x) e = (
          x,
          e,
          some-injective y (if p x then f x else x)
              (sym h ∙ rw e at (find-update_rows p f i xs keeps)),
        )

    pub find-update_hit :
        (i : ℕ) (x : A)
        → find (by_id i) xs ≡ some x
        → p x ≡ true
        → find (by_id i) (update_rows p f xs) ≡ some (f x)
    find-update_hit i x e t = find-update_rows p f i xs keeps ∙ rw (e, t) refl

    pub find-update_miss :
        (i : ℕ) (x : A)
        → find (by_id i) xs ≡ some x
        → p x ≡ false
        → find (by_id i) (update_rows p f xs) ≡ some x
    find-update_miss i x e t = find-update_rows p f i xs keeps ∙ rw (e, t) refl

  pub append-Ascending :
      (xs : List A) (r : A) → Ascending xs → All (λ y. id y < id r) xs → Ascending (xs ++ r ∷ [])
  append-Ascending [] r a b = (tt, tt)
  append-Ascending (y ∷ ys) r a b = (above ys a.0, append-Ascending ys r a.1 b.1)
    where
      above : (zs : List A) → All (λ z. id y < id z) zs → All (λ z. id y < id z) (zs ++ r ∷ [])
      above [] h = (b.0, tt)
      above (z ∷ zs) h = (h.0, above zs h.1)

  -- The row of a key after an insertion.
  pub find-append :
      (i : ℕ) (xs : List A) (r : A)
      → All (λ y. id y < id r) xs
      → find (by_id i) (xs ++ r ∷ []) ≡ (if nat_beq (id r) i then some r else find (by_id i) xs)
  unfolding find
  find-append i [] r b = refl
  find-append i (y ∷ ys) r b = ground (arith, find-append i ys r b.1)

  pub find-append_old :
      (i : ℕ) (xs : List A) (r x : A)
      → find (by_id i) xs ≡ some x
      → find (by_id i) (xs ++ r ∷ []) ≡ some x
  unfolding find
  find-append_old i [] r x h = cc
  find-append_old i (y ∷ ys) r x h = elim (Bool-cases (by_id i y)) [
    | inl t ↦ rw t (rw t at h)
    | inr t ↦ rw t (find-append_old i ys r x (rw t at h))
  ]

  pub find-append_inv :
      (i : ℕ) (xs : List A) (r y : A)
      → find (by_id i) (xs ++ r ∷ []) ≡ some y
      → (y ≡ r) ⊎ (find (by_id i) xs ≡ some y)
  unfolding find
  find-append_inv i [] r y h = elim (Bool-cases (by_id i r)) [
    | inl t ↦ inl (sym (some-injective r y (rw t at h)))
    | inr t ↦ absurd (none-ne-some y (rw t at h))
  ]
  find-append_inv i (x ∷ xs) r y h = elim (Bool-cases (by_id i x)) [
    | inl t ↦ inr (rw t (rw t at h))
    | inr t ↦ rw t (find-append_inv i xs r y (rw t at h))
  ]

  count_above :
      (p : A → Bool) (i : ℕ) (xs : List A)
      → ((x : A) → p x ≡ true → id x ≡ i)
      → All (λ y. i < id y) xs
      → count p xs ≡ 0
  unfolding count
  count_above p i [] only a = refl
  count_above p i (y ∷ ys) only a = elim (Bool-cases (p y)) [
    | inl t ↦ absurd (omega (arith, only y t, a.0))
    | inr t ↦ rw t (count_above p i ys only a.1)
  ]

  -- A condition that fixes the key holds of one row, if it holds of the row of that key.
  pub count-by_id :
      (p : A → Bool) (i : ℕ) (xs : List A) (x : A)
      → ((y : A) → p y ≡ true → id y ≡ i)
      → Ascending xs
      → find (by_id i) xs ≡ some x
      → p x ≡ true
      → count p xs ≡ 1
  unfolding find count
  count-by_id p i [] x only a h t = absurd (none-ne-some x h)
  count-by_id p i (y ∷ ys) x only a h t = elim (Bool-cases (by_id i y)) [
    | inl u ↦
        let here : y ≡ x = some-injective y x (rw u at h) in
        let own : id y ≡ i = (nat_beq_iff (id y) i).0 u in
        rw here (rw t (ap suc (count_above p i ys only (rw own at a.0))))
    | inr u ↦ elim (Bool-cases (p y)) [
      | inl w ↦ absurd (ground (arith, only y w))
      | inr w ↦ rw w (count-by_id p i ys x only a.1 (rw u at h) t)
    ]
  ]

-- A row that is selected first is the row that is found.
pub find-select :
    {A : Type 0} (p : A → Bool) (xs : List A) (x : A) (rest : List A)
    → select p xs ≡ x ∷ rest
    → find p xs ≡ some x
unfolding find select
find-select p [] x rest h = absurd (ground arith)
find-select p (y ∷ ys) x rest h = elim (Bool-cases (p y)) [
  | inl t ↦ rw t (ground arith)
  | inr t ↦ rw t (find-select p ys x rest (rw t at h))
]

pub find-none :
    {A : Type 0} (p q : A → Bool) (xs : List A) (x : A)
    → find p xs ≡ none
    → find q xs ≡ some x
    → p x ≡ false
unfolding find
find-none p q [] x h k = absurd (none-ne-some x k)
find-none p q (y ∷ ys) x h k = elim (Bool-cases (p y)) [
  | inl t ↦ absurd (none-ne-some y (sym (rw t at h)))
  | inr t ↦ elim (Bool-cases (q y)) [
    | inl u ↦ rw (← some-injective y x (rw u at k)) t
    | inr u ↦ find-none p q ys x (rw t at h) (rw u at k)
  ]
]

-- Some row has the key.
abbrev pub has_key : {A : Type 0} → (A → ℕ) → ℕ → List A → Bool
has_key id i [] = false
has_key id i (x ∷ xs) = nat_beq i (id x) || has_key id i xs

pub has_key-select :
    {A : Type 0} (id : A → ℕ) (p : A → Bool) (i : ℕ) (xs : List A) (r : A)
    → find (by_id id i) xs ≡ some r
    → p r ≡ true
    → has_key id i (select p xs) ≡ true
unfolding find select
has_key-select id p i [] r h t = absurd (none-ne-some r h)
has_key-select id p i (y ∷ ys) r h t = elim (Bool-cases (nat_beq (id y) i)) [
  | inl u ↦
      let same : y ≡ r = some-injective y r (rw u at h) in
      let q : p y ≡ true = subst (λ z. p z ≡ true) (sym same) t in rw q (ground arith)
  | inr u ↦
      let ih = has_key-select id p i ys r (rw u at h) t in
      elim (Bool-cases (p y)) [ inl q ↦ rw q (ground arith) | inr q ↦ rw q ih ]
]
