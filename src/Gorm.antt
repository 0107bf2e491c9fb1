-- ===== src/Gorm.antt =====
-- What the services take from gorm.io/gorm over SQLite: the statements that they run, as the
-- parameter `Gorm`, and the handlers' state passing. A statement reads a table as the list of its
-- rows in primary-key order. The laws are gorm's documented behaviour; any statement may fail.
pub mod Statements
pub mod Rules
pub mod Memory
pub mod Keeps
pub mod Queries
pub mod Outcomes
use mathlib.Core.List.{reverse, Permᴰ}
use olimpo.Common.{
  ℕ, ◌≤◌, ◌<◌, ◌≡◌, ◌⊎◌, Bool, true, Option, none, some, List, [], ◌∷◌, ◌++◌, find, update_rows,
  count, select, All, take, ◌==◌, nat_eq, not, IsOrder, Sorted,
}
use olimpo.Errors.{
  DbError, record_not_found, failure, Refusal, Error, refused, database, Result, ok, err,
}

abbrev pub or_not_found : {Row : Type 0} → Option Row → Result DbError Row
or_not_found none = err record_not_found
or_not_found (some r) = ok r

-- A row stands in a table.
abbrev pub In : {A : Type 0} → A → List A → Type 0
In r [] = ⊥
In r (x ∷ xs) = (x ≡ r) ⊎ In r xs

pub record Gorm : Type 1 where
  -- `Where(p).First(&row)`, which orders by the primary key
  pub first : {Row : Type 0} → (Row → Bool) → List Row → Result DbError Row
  -- `Where(p).Order("created_at desc").First(&row)`
  pub latest : {Row : Type 0} → (Row → ℕ) → (Row → Bool) → List Row → Result DbError Row
  -- `Where(p).Find(&rows)`
  pub rows : {Row : Type 0} → (Row → Bool) → List Row → Result DbError (List Row)
  -- `Where(p).Order("id desc").Limit(n).Find(&rows)`
  pub newest : {Row : Type 0} → ℕ → (Row → Bool) → List Row → Result DbError (List Row)
  -- `Where(p).Order(...).Find(&rows)`, for an order that tells which of two rows comes first
  pub ordered :
      {Row : Type 0} → (Row → Row → Bool) → (Row → Bool) → List Row → Result DbError (List Row)
  -- `Where(p).Count(&n)`
  pub total : {Row : Type 0} → (Row → Bool) → List Row → Result DbError ℕ
  -- `Where(p).Updates(f)`: the new table and `RowsAffected`
  pub update :
      {Row : Type 0} → (Row → Bool) → (Row → Row) → List Row → Result DbError (List Row × ℕ)
  -- `Unscoped().Where(p).Delete(...)`: the new table
  pub delete : {Row : Type 0} → (Row → Bool) → List Row → Result DbError (List Row)
  -- `Create(&row)`: the row is given as a function of the primary key and of `created_at`, which
  -- the database and gorm choose
  pub create :
      {Row : Type 0} → (Row → ℕ) → (ℕ → ℕ → Row) → List Row → Result DbError (List Row × Row)
  -- `Transaction(body)`
  pub transaction : {S A : Type 0} → (S → Result Error A × S) → S → Result Error A × S
  pub first_law :
      {Row : Type 0} (p : Row → Bool) (t : List Row)
      → (first p t ≡ or_not_found (find p t)) ⊎ (first p t ≡ err failure)
  pub latest_law :
      {Row : Type 0} (at : Row → ℕ) (p : Row → Bool) (t : List Row)
      → ((latest at p t ≡ err record_not_found) × (find p t ≡ none))
        ⊎ ((r : Row) × (latest at p t ≡ ok r)
            × (p r ≡ true)
            × In r t
            × All (λ x. p x ≡ true → at x ≤ at r) t)
        ⊎ (latest at p t ≡ err failure)
  pub rows_law :
      {Row : Type 0} (p : Row → Bool) (t : List Row)
      → (rows p t ≡ ok (select p t)) ⊎ (rows p t ≡ err failure)
  pub newest_law :
      {Row : Type 0} (n : ℕ) (p : Row → Bool) (t : List Row)
      → (newest n p t ≡ ok (take n (reverse (select p t)))) ⊎ (newest n p t ≡ err failure)
  -- The rows that meet the condition, each once, in an order that the test does not contradict.
  pub ordered_law :
      {Row : Type 0} (less : Row → Row → Bool) (p : Row → Bool) (t : List Row)
      → ((r : List Row) × (ordered less p t ≡ ok r)
          × Permᴰ (select p t) r
          × (IsOrder less → Sorted less r))
        ⊎ (ordered less p t ≡ err failure)
  pub total_law :
      {Row : Type 0} (p : Row → Bool) (t : List Row)
      → (total p t ≡ ok (count p t)) ⊎ (total p t ≡ err failure)
  pub update_law :
      {Row : Type 0} (p : Row → Bool) (f : Row → Row) (t : List Row)
      → (update p f t ≡ ok (update_rows p f t, count p t)) ⊎ (update p f t ≡ err failure)
  pub delete_law :
      {Row : Type 0} (p : Row → Bool) (t : List Row)
      → (delete p t ≡ ok (select (λ x. not (p x)) t)) ⊎ (delete p t ≡ err failure)
  -- Keys grow, so the new row is the last one; a unique index may refuse it.
  pub create_law :
      {Row : Type 0} (id : Row → ℕ) (mk : ℕ → ℕ → Row) (t : List Row)
      → ((n : ℕ) × (at : ℕ) × (create id mk t ≡ ok (t ++ mk n at ∷ [], mk n at))
          × (0 < n)
          × All (λ x. id x < n) t)
        ⊎ (create id mk t ≡ err failure)
  pub commit_law :
      {S A : Type 0} (body : S → Result Error A × S) (s : S) (a : A) (s' : S)
      → body s ≡ (ok a, s')
      → (transaction body s ≡ (ok a, s')) ⊎ (transaction body s ≡ (err (database failure), s))
  pub rollback_law :
      {S A : Type 0} (body : S → Result Error A × S) (s : S) (e : Error) (s' : S)
      → body s ≡ (err e, s')
      → transaction body s ≡ (err e, s)

-- A handler's part: what it returns, and the database that it leaves.
abbrev pub Exec : Type 0 → Type 0 → Type 0
Exec S A = S → Result Error A × S

-- A table of the database, with its primary key.
pub record Table (S Row : Type 0) : Type 0 where
  pub rows_of : S → List Row
  pub with_rows : S → List Row → S
  pub id : Row → ℕ

module _ {S A : Type 0} where
  unfoldable pub pure : A → Exec S A
  pure a s = (ok a, s)

  unfoldable pub refuse : Refusal → Exec S A
  refuse r s = (err (refused r), s)

  unfoldable pub fail : Error → Exec S A
  fail e s = (err e, s)

  unfoldable pub reply : Result DbError A → Exec S A
  reply (ok a) s = (ok a, s)
  reply (err e) s = (err (database e), s)

-- A computation beside the database.
abbrev pub lift : {S A : Type 0} → Result Error A → Exec S A
lift r s = (r, s)

-- `if err != nil { return r }`, whatever the error is
abbrev pub blamed : {S A : Type 0} → Refusal → Result Error A × S → Result Error A × S
blamed r (ok a, s) = (ok a, s)
blamed r (err e, s) = (err (refused r), s)

abbrev pub refuse_as : {S A : Type 0} → Refusal → Exec S A → Exec S A
refuse_as r m s = blamed r (m s)

module _ {S A B : Type 0} where
  abbrev pub proceed : (A → Exec S B) → Result Error A × S → Result Error B × S
  proceed k (ok a, s) = k a s
  proceed k (err e, s) = (err e, s)

  infixl 5 ◌>>=◌ ◌>>◌
  -- To open this is to open the other primitives too.
  unfoldable pub ◌>>=◌ : Exec S A → (A → Exec S B) → Exec S B
  unfolding pure refuse fail reply
  ◌>>=◌ m k s = proceed k (m s)

  abbrev pub ◌>>◌ : Exec S A → Exec S B → Exec S B
  m >> k = m >>= λ _. k

-- `if errors.Is(err, gorm.ErrRecordNotFound) { return r }; return err`
abbrev pub missing : {A : Type 0} → Error → Result DbError A → Result Error A
missing e (ok a) = ok a
missing e (err record_not_found) = err e
missing e (err failure) = err (database failure)

abbrev pub found : {A : Type 0} → Result DbError A → Result DbError (Option A)
found (ok a) = ok (some a)
found (err record_not_found) = ok none
found (err failure) = err failure

abbrev pub with_unit : {A : Type 0} → Result DbError A → Result DbError (A × Unit {0})
with_unit (ok a) = ok (a, tt)
with_unit (err e) = err e

module _ (db : Gorm) {S Row : Type 0} (t : Table S Row) where
  open t use {rows_of, with_rows, id}

  abbrev pub stored : {A : Type 0} → Result DbError (List Row × A) → Exec S A
  stored (ok (new, a)) s = (ok a, with_rows s new)
  stored (err e) s = (err (database e), s)

  -- The first row, or the given error where there is none.
  unfoldable pub first_or : Error → (Row → Bool) → Exec S Row
  first_or e p s = (missing e (db.first p (rows_of s)), s)

  unfoldable pub latest_or : Error → (Row → ℕ) → (Row → Bool) → Exec S Row
  latest_or e at p s = (missing e (db.latest at p (rows_of s)), s)

  -- The first row, where the code goes on without one.
  unfoldable pub first? : (Row → Bool) → Exec S (Option Row)
  first? p s = reply (found (db.first p (rows_of s))) s

  unfoldable pub latest? : (Row → ℕ) → (Row → Bool) → Exec S (Option Row)
  latest? at p s = reply (found (db.latest at p (rows_of s))) s

  unfoldable pub find_rows : (Row → Bool) → Exec S (List Row)
  find_rows p s = reply (db.rows p (rows_of s)) s

  unfoldable pub newest_rows : ℕ → (Row → Bool) → Exec S (List Row)
  newest_rows n p s = reply (db.newest n p (rows_of s)) s

  unfoldable pub ordered_rows : (Row → Row → Bool) → (Row → Bool) → Exec S (List Row)
  ordered_rows less p s = reply (db.ordered less p (rows_of s)) s

  unfoldable pub count_rows : (Row → Bool) → Exec S ℕ
  count_rows p s = reply (db.total p (rows_of s)) s

  -- `Updates`, with `RowsAffected`.
  unfoldable pub update_where : (Row → Bool) → (Row → Row) → Exec S ℕ
  update_where p f s = stored (db.update p f (rows_of s)) s

  unfoldable pub delete_where : (Row → Bool) → Exec S (Unit {0})
  delete_where p s = stored (with_unit (db.delete p (rows_of s))) s

  -- `tx.Model(&row).Updates(f)`, by the row's primary key.
  abbrev pub update_row : Row → (Row → Row) → Exec S ℕ
  update_row r f = update_where (λ x. id x == id r) f

  unfoldable pub create_row : (ℕ → ℕ → Row) → Exec S Row
  create_row mk s = stored (db.create id mk (rows_of s)) s
