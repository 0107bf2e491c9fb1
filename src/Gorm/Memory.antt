-- ===== src/Gorm/Memory.antt =====
-- A database in memory that never fails: an instance of `Gorm`, which shows that its laws can hold.
use mathlib.Core.Path.{◌≡◌, refl}
use mathlib.Core.List.{reverse}
use olimpo.Common.{
  ℕ, suc, ◌<◌, ◌≤◌, ◌⊎◌, inl, inr, Bool, true, false, Option, none, some, List, [], ◌∷◌, ◌++◌,
  arith, find, update_rows, count, select, All, take, leb, if◌then◌else◌, Bool-cases, not, sort,
  sort-Permᴰ, sort-Sorted,
}
use olimpo.Errors.{Error, failure, record_not_found, Result, ok, err}
use olimpo.Gorm.{Gorm, or_not_found, In}

-- The row with the greatest value, the first of them.
abbrev better : {Row : Type 0} → (Row → ℕ) → Row → Option Row → Option Row
better at x none = some x
better at x (some y) = if leb (at y) (at x) then some x else some y

abbrev pub best : {Row : Type 0} → (Row → ℕ) → (Row → Bool) → List Row → Option Row
best at p [] = none
best at p (x ∷ xs) = let rest = best at p xs in if p x then better at x rest else rest

abbrev pub next_key : {Row : Type 0} → (Row → ℕ) → List Row → ℕ
next_key id [] = 1
next_key id (x ∷ xs) = let rest = next_key id xs in if leb rest (id x) then suc (id x) else rest

abbrev pub run_transaction : {S A : Type 0} → S → Result Error A × S → Result Error A × S
run_transaction s₀ (ok a, s) = (ok a, s)
run_transaction s₀ (err e, s) = (err e, s₀)

module _ {Row : Type 0} where
  All-weaken : (P Q : Row → Type 0) (xs : List Row) → ((x : Row) → P x → Q x) → All P xs → All Q xs
  All-weaken P Q [] f h = tt
  All-weaken P Q (x ∷ xs) f h = (f x h.0, All-weaken P Q xs f h.1)

  pub next_key_above :
      (id : Row → ℕ) (xs : List Row) → (0 < next_key id xs) × All (λ x. id x < next_key id xs) xs
  next_key_above id [] = (omega arith, tt)
  next_key_above id (x ∷ xs) =
      let (pos, above) = next_key_above id xs in
      (
        ground arith,
        (
          ground arith,
          All-weaken (λ y. id y < next_key id xs) (λ y. id y < next_key id (x ∷ xs)) xs
              (λ y h. ground arith) above,
        ),
      )

  abbrev IsBest : (Row → ℕ) → (Row → Bool) → List Row → Option Row → Type 0
  IsBest at p xs none = All (λ x. p x ≡ false) xs
  IsBest at p xs (some r) = (p r ≡ true) × In r xs × All (λ x. p x ≡ true → at x ≤ at r) xs

  pub best_lem : (at : Row → ℕ) (p : Row → Bool) (xs : List Row) → IsBest at p xs (best at p xs)
  best_lem at p [] = tt
  best_lem at p (x ∷ xs) = go (best at p xs) (best_lem at p xs) (p x) refl
    where
      go :
          (o : Option Row)
          → IsBest at p xs o
          → (b : Bool) → p x ≡ b
          → IsBest at p (x ∷ xs) (if b then better at x o else o)
      go none h true e =
          (e, inl refl, ((λ _. omega arith), All-weaken _ _ xs (λ y n t. absurd (ground arith)) h))
      go none h false e = (e, h)
      go (some y) h true e = elim (Bool-cases (leb (at y) (at x))) [
        | inl t ↦ rw t (
          e,
          inl refl,
          ((λ _. omega arith), All-weaken _ _ xs (λ z f u. ground (arith, f u)) h.2),
        )
        | inr t ↦ rw t (h.0, inr h.1, ((λ _. ground arith), h.2))
      ]
      go (some y) h false e = (h.0, inr h.1, ((λ u. absurd (ground arith)), h.2))

  pub find-nothing : (p : Row → Bool) (xs : List Row) → All (λ x. p x ≡ false) xs → find p xs ≡ none
  unfolding find
  find-nothing p [] h = refl
  find-nothing p (x ∷ xs) h = rw h.0 (find-nothing p xs h.1)

pub best_latest :
    {Row : Type 0} (at : Row → ℕ) (p : Row → Bool) (t : List Row)
    → ((or_not_found (best at p t) ≡ err record_not_found) × (find p t ≡ none))
      ⊎ ((r : Row) × (or_not_found (best at p t) ≡ ok r)
          × (p r ≡ true)
          × In r t
          × All (λ x. p x ≡ true → at x ≤ at r) t)
      ⊎ (or_not_found (best at p t) ≡ err failure)
best_latest {Row} at p t = go (best at p t) (best_lem at p t)
  where
    go :
        (o : Option Row)
        → IsBest at p t o
        → ((or_not_found o ≡ err record_not_found) × (find p t ≡ none))
          ⊎ ((r : Row) × (or_not_found o ≡ ok r)
              × (p r ≡ true)
              × In r t
              × All (λ x. p x ≡ true → at x ≤ at r) t)
          ⊎ (or_not_found o ≡ err failure)
    go none h = inl (refl, find-nothing p t h)
    go (some r) h = inr (inl (r, refl, h.0, h.1, h.2))

abbrev pub memory : Gorm
memory = record {
  first = λ p t. or_not_found (find p t);
  latest = λ at p t. or_not_found (best at p t);
  rows = λ p t. ok (select p t);
  newest = λ n p t. ok (take n (reverse (select p t)));
  ordered = λ less p t. ok (sort less (select p t));
  delete = λ p t. ok (select (λ x. not (p x)) t);
  total = λ p t. ok (count p t);
  update = λ p f t. ok (update_rows p f t, count p t);
  create = λ id mk t. ok (t ++ mk (next_key id t) 0 ∷ [], mk (next_key id t) 0);
  transaction = λ body s. run_transaction s (body s);
  first_law = λ p t. inl refl;
  latest_law = best_latest;
  rows_law = λ p t. inl refl;
  newest_law = λ n p t. inl refl;
  ordered_law = λ less p t. inl (
    sort less (select p t),
    refl,
    sort-Permᴰ less (select p t),
    λ o. sort-Sorted less o (select p t),
  );
  delete_law = λ p t. inl refl;
  total_law = λ p t. inl refl;
  update_law = λ p f t. inl refl;
  create_law =
      λ id mk t. let (pos, above) = next_key_above id t in inl (next_key id t, 0, refl, pos, above);
  commit_law = λ body s a s' e. inl (rw e refl);
  rollback_law = λ body s e s' h. rw h refl;
}
