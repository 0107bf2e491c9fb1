-- ===== src/Gorm/Statements.antt =====
-- The rules for the statements: each tells what its continuation has to ensure.
use olimpo.Common.{
  ℕ, ◌<◌, ◌≡◌, refl, ◌⊎◌, inl, inr, Bool, true, Option, none, some, List, [], ◌∷◌, ◌++◌, find,
  update_rows, count, select, All, take, ◌≤◌, not, IsOrder, Sorted,
}
use mathlib.Core.List.{reverse, Permᴰ}
use olimpo.Errors.{failure, DbError, Refusal, refused, database, ok, err}
use olimpo.Gorm.{
  Gorm, Table, Exec, In, ◌>>=◌, first_or, first?, latest_or, find_rows, newest_rows, count_rows,
  update_where, create_row, ordered_rows, delete_where, missing, found, or_not_found, proceed,
  reply,
}
use olimpo.Gorm.Rules.{Outcome, Ensures}

module _ (db : Gorm) {S Row A : Type 0} (t : Table S Row) {G : A → S → Type 0}
    {B : Refusal → Type 0} where
  pub first_or-Ensures :
      (r : Refusal) (p : Row → Bool) (k : Row → Exec S A) (s : S)
      → (find p (t.rows_of s) ≡ none → B r)
      → ((x : Row) → find p (t.rows_of s) ≡ some x → Ensures G B (k x) s)
      → Ensures G B (first_or db t (refused r) p >>= k) s
  unfolding ◌>>=◌ first_or
  first_or-Ensures r p k s absent present = elim (db.first_law p (t.rows_of s)) [
    | inl e ↦ record { holds = rw e (go (find p (t.rows_of s)) refl) }
    | inr e ↦ record { holds = rw e tt }
  ]
    where
      go :
          (o : Option Row)
          → find p (t.rows_of s) ≡ o
          → Outcome G B (proceed k (missing (refused r) (or_not_found o), s))
      go none e = absent e
      go (some x) e = (present x e).holds

  -- The same where a missing row is a failure of the database.
  pub first_or-Ensures_fault :
      (d : DbError) (p : Row → Bool) (k : Row → Exec S A) (s : S)
      → ((x : Row) → find p (t.rows_of s) ≡ some x → Ensures G B (k x) s)
      → Ensures G B (first_or db t (database d) p >>= k) s
  unfolding ◌>>=◌ first_or
  first_or-Ensures_fault d p k s present = elim (db.first_law p (t.rows_of s)) [
    | inl e ↦ record { holds = rw e (go (find p (t.rows_of s)) refl) }
    | inr e ↦ record { holds = rw e tt }
  ]
    where
      go :
          (o : Option Row)
          → find p (t.rows_of s) ≡ o
          → Outcome G B (proceed k (missing (database d) (or_not_found o), s))
      go none e = tt
      go (some x) e = (present x e).holds

  pub first?-Ensures :
      (p : Row → Bool) (k : Option Row → Exec S A) (s : S)
      → Ensures G B (k (find p (t.rows_of s))) s
      → Ensures G B (first? db t p >>= k) s
  unfolding ◌>>=◌ first?
  first?-Ensures p k s h = elim (db.first_law p (t.rows_of s)) [
    | inl e ↦ record { holds = rw e (go (find p (t.rows_of s)) h) }
    | inr e ↦ record { holds = rw e tt }
  ]
    where
      go :
          (o : Option Row)
          → Ensures G B (k o) s
          → Outcome G B (proceed k (reply (found (or_not_found o)) s))
      go none q = q.holds
      go (some x) q = q.holds

  pub latest_or-Ensures :
      (r : Refusal) (at : Row → ℕ) (p : Row → Bool) (k : Row → Exec S A) (s : S)
      → (find p (t.rows_of s) ≡ none → B r)
      → ((x : Row)
          → p x ≡ true
          → In x (t.rows_of s)
          → All (λ y. p y ≡ true → at y ≤ at x) (t.rows_of s)
          → Ensures G B (k x) s)
      → Ensures G B (latest_or db t (refused r) at p >>= k) s
  unfolding ◌>>=◌ latest_or
  latest_or-Ensures r at p k s absent present = elim (db.latest_law at p (t.rows_of s)) [
    | inl (e, n) ↦ record { holds = rw e (absent n) }
    | inr (inl (x, e, h, i, m)) ↦ record { holds = rw e (present x h i m).holds }
    | inr (inr e) ↦ record { holds = rw e tt }
  ]

  pub find_rows-Ensures :
      (p : Row → Bool) (k : List Row → Exec S A) (s : S)
      → Ensures G B (k (select p (t.rows_of s))) s
      → Ensures G B (find_rows db t p >>= k) s
  unfolding ◌>>=◌ find_rows
  find_rows-Ensures p k s h = elim (db.rows_law p (t.rows_of s)) [
    | inl e ↦ record { holds = rw e h.holds }
    | inr e ↦ record { holds = rw e tt }
  ]

  pub newest_rows-Ensures :
      (n : ℕ) (p : Row → Bool) (k : List Row → Exec S A) (s : S)
      → Ensures G B (k (take n (reverse (select p (t.rows_of s))))) s
      → Ensures G B (newest_rows db t n p >>= k) s
  unfolding ◌>>=◌ newest_rows
  newest_rows-Ensures n p k s h = elim (db.newest_law n p (t.rows_of s)) [
    | inl e ↦ record { holds = rw e h.holds }
    | inr e ↦ record { holds = rw e tt }
  ]

  pub ordered_rows-Ensures :
      (less : Row → Row → Bool) (p : Row → Bool) (k : List Row → Exec S A) (s : S)
      → ((r : List Row)
          → Permᴰ (select p (t.rows_of s)) r
          → (IsOrder less → Sorted less r)
          → Ensures G B (k r) s)
      → Ensures G B (ordered_rows db t less p >>= k) s
  unfolding ◌>>=◌ ordered_rows
  ordered_rows-Ensures less p k s h = elim (db.ordered_law less p (t.rows_of s)) [
    | inl (r, e, all, sorted) ↦ record { holds = rw e (h r all sorted).holds }
    | inr e ↦ record { holds = rw e tt }
  ]

  pub count_rows-Ensures :
      (p : Row → Bool) (k : ℕ → Exec S A) (s : S)
      → Ensures G B (k (count p (t.rows_of s))) s
      → Ensures G B (count_rows db t p >>= k) s
  unfolding ◌>>=◌ count_rows
  count_rows-Ensures p k s h = elim (db.total_law p (t.rows_of s)) [
    | inl e ↦ record { holds = rw e h.holds }
    | inr e ↦ record { holds = rw e tt }
  ]

  pub update_where-Ensures :
      (p : Row → Bool) (f : Row → Row) (k : ℕ → Exec S A) (s : S)
      → Ensures G B (k (count p (t.rows_of s))) (t.with_rows s (update_rows p f (t.rows_of s)))
      → Ensures G B (update_where db t p f >>= k) s
  unfolding ◌>>=◌ update_where
  update_where-Ensures p f k s h = elim (db.update_law p f (t.rows_of s)) [
    | inl e ↦ record { holds = rw e h.holds }
    | inr e ↦ record { holds = rw e tt }
  ]

  pub delete_where-Ensures :
      (p : Row → Bool) (k : Unit {0} → Exec S A) (s : S)
      → Ensures G B (k tt) (t.with_rows s (select (λ x. not (p x)) (t.rows_of s)))
      → Ensures G B (delete_where db t p >>= k) s
  unfolding ◌>>=◌ delete_where
  delete_where-Ensures p k s h = elim (db.delete_law p (t.rows_of s)) [
    | inl e ↦ record { holds = rw e h.holds }
    | inr e ↦ record { holds = rw e tt }
  ]

  pub create_row-Ensures :
      (mk : ℕ → ℕ → Row) (k : Row → Exec S A) (s : S)
      → ((n at : ℕ)
          → 0 < n
          → All (λ x. t.id x < n) (t.rows_of s)
          → Ensures G B (k (mk n at)) (t.with_rows s (t.rows_of s ++ mk n at ∷ [])))
      → Ensures G B (create_row db t mk >>= k) s
  unfolding ◌>>=◌ create_row
  create_row-Ensures mk k s h = elim (db.create_law t.id mk (t.rows_of s)) [
    | inl (n, at, e, pos, above) ↦ record { holds = rw e (h n at pos above).holds }
    | inr e ↦ record { holds = rw e tt }
  ]

-- The same where the statement is the last one.
module _ (db : Gorm) {S Row : Type 0} (t : Table S Row) {G : Row → S → Type 0}
    {B : Refusal → Type 0} where
  pub first_or-Ensures_last :
      (d : DbError) (p : Row → Bool) (s : S)
      → ((x : Row) → find p (t.rows_of s) ≡ some x → G x s)
      → Ensures G B (first_or db t (database d) p) s
  unfolding first_or
  first_or-Ensures_last d p s h = elim (db.first_law p (t.rows_of s)) [
    | inl e ↦ record { holds = rw e (go (find p (t.rows_of s)) refl) }
    | inr e ↦ record { holds = rw e tt }
  ]
    where
      go :
          (o : Option Row)
          → find p (t.rows_of s) ≡ o
          → Outcome G B (missing (database d) (or_not_found o), s)
      go none e = tt
      go (some x) e = h x e

  pub create_row-Ensures_last :
      (mk : ℕ → ℕ → Row) (s : S)
      → ((n at : ℕ)
          → 0 < n
          → All (λ x. t.id x < n) (t.rows_of s)
          → G (mk n at) (t.with_rows s (t.rows_of s ++ mk n at ∷ [])))
      → Ensures G B (create_row db t mk) s
  unfolding create_row
  create_row-Ensures_last mk s h = elim (db.create_law t.id mk (t.rows_of s)) [
    | inl (n, at, e, pos, above) ↦ record { holds = rw e (h n at pos above) }
    | inr e ↦ record { holds = rw e tt }
  ]

-- A query outside any transaction.
pub find_rows_cases :
    (db : Gorm) {S Row : Type 0} (t : Table S Row) (p : Row → Bool) (s : S)
    → (find_rows db t p s ≡ (ok (select p (t.rows_of s)), s))
      ⊎ (find_rows db t p s ≡ (err (database failure), s))
unfolding find_rows reply
find_rows_cases db t p s = elim (db.rows_law p (t.rows_of s)) [
  | inl e ↦ inl (rw e refl)
  | inr e ↦ inr (rw e refl)
]
