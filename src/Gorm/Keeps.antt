-- ===== src/Gorm/Keeps.antt =====
-- How the database changes along a call, whether it succeeds or not: a relation that holds of every
-- state and itself, and along a chain, holds of the state before a call and the one after it.
use olimpo.Common.{
  ℕ, ◌≡◌, refl, inl, inr, Bool, true, false, [], ◌∷◌, ◌++◌, update_rows, All, ◌<◌, if◌then◌else◌,
  Option, none, some, find,
}
use olimpo.Errors.{DbError, Refusal, Error, Result, ok, err}
use olimpo.Gorm.{
  Gorm, Table, Exec, pure, refuse, reply, ◌>>=◌, first_or, first?, latest_or, count_rows,
  update_where, create_row, ordered_rows, proceed, lift, blamed, refuse_as, found, or_not_found,
}

pub record Keeps {S A : Type 0} (R : S → S → Type 0) (m : Exec S A) (s : S) : Type 0 where
  pub kept : R s (m s).1

module _ {S : Type 0} (R : S → S → Type 0) (same : (s : S) → R s s)
    (chain : (s t u : S) → R s t → R t u → R s u) where
  module _ {A : Type 0} where
    pub pure-Keeps : (a : A) (s : S) → Keeps R (pure a) s
    unfolding pure
    pure-Keeps a s = record { kept = same s }

    pub refuse-Keeps : (r : Refusal) (s : S) → Keeps R (refuse {A = A} r) s
    unfolding refuse
    refuse-Keeps r s = record { kept = same s }

    pub lift-Keeps : (r : Result Error A) (s : S) → Keeps R (lift r) s
    lift-Keeps r s = record { kept = same s }

    pub if-Keeps :
        (b : Bool) (m n : Exec S A) (s : S)
        → Keeps R m s
        → Keeps R n s
        → Keeps R (if b then m else n) s
    if-Keeps true m n s h k = h
    if-Keeps false m n s h k = k

    pub transaction-Keeps :
        (db : Gorm) (body : Exec S A) (s : S) → Keeps R body s → Keeps R (db.transaction body) s
    transaction-Keeps db body s h = record { kept = go (body s) refl h.kept }
      where
        go : (o : Result Error A × S) → body s ≡ o → R s o.1 → R s (db.transaction body s).1
        go (ok a, t) e k = elim (db.commit_law body s a t e) [
          | inl c ↦ rw c k
          | inr c ↦ rw c (same s)
        ]
        go (err d, t) e k = rw (db.rollback_law body s d t e) (same s)

    pub refuse_as-Keeps :
        (r : Refusal) (m : Exec S A) (s : S) → Keeps R m s → Keeps R (refuse_as r m) s
    refuse_as-Keeps r m s h = record { kept = go (m s) h.kept }
      where
        go : (o : Result Error A × S) → R s o.1 → R s (blamed r o).1
        go (ok a, t) k = k
        go (err e, t) k = k

  module _ {A B : Type 0} where
    pub bind-Keeps :
        (m : Exec S A) (k : A → Exec S B) (s : S)
        → Keeps R m s
        → ((a : A) (t : S) → Keeps R (k a) t)
        → Keeps R (m >>= k) s
    unfolding ◌>>=◌
    bind-Keeps m k s h n = record { kept = go (m s) h.kept }
      where
        go : (o : Result Error A × S) → R s o.1 → R s (proceed k o).1
        go (ok a, t) p = chain s t _ p (n a t).kept
        go (err e, t) p = p

  reply-Keeps : {A : Type 0} (r : Result DbError A) (s : S) → R s (reply r s).1
  unfolding reply
  reply-Keeps (ok a) s = same s
  reply-Keeps (err e) s = same s

  module _ (db : Gorm) {Row : Type 0} (t : Table S Row) where
    pub first_or-Keeps : (e : Error) (p : Row → Bool) (s : S) → Keeps R (first_or db t e p) s
    unfolding first_or
    first_or-Keeps e p s = record { kept = same s }

    pub latest_or-Keeps :
        (e : Error) (at : Row → ℕ) (p : Row → Bool) (s : S) → Keeps R (latest_or db t e at p) s
    unfolding latest_or
    latest_or-Keeps e at p s = record { kept = same s }

    pub first?-Keeps : (p : Row → Bool) (s : S) → Keeps R (first? db t p) s
    unfolding first?
    first?-Keeps p s = record { kept = reply-Keeps (found (db.first p (t.rows_of s))) s }

    pub count_rows-Keeps : (p : Row → Bool) (s : S) → Keeps R (count_rows db t p) s
    unfolding count_rows reply
    count_rows-Keeps p s = elim (db.total_law p (t.rows_of s)) [
      | inl e ↦ record { kept = rw e (same s) }
      | inr e ↦ record { kept = rw e (same s) }
    ]

    pub ordered_rows-Keeps :
        (less : Row → Row → Bool) (p : Row → Bool) (s : S) → Keeps R (ordered_rows db t less p) s
    unfolding ordered_rows
    ordered_rows-Keeps less p s = record { kept = reply-Keeps (db.ordered less p (t.rows_of s)) s }

    pub update_where-Keeps :
        (p : Row → Bool) (f : Row → Row) (s : S)
        → R s (t.with_rows s (update_rows p f (t.rows_of s)))
        → Keeps R (update_where db t p f) s
    unfolding update_where
    update_where-Keeps p f s h = elim (db.update_law p f (t.rows_of s)) [
      | inl e ↦ record { kept = rw e h }
      | inr e ↦ record { kept = rw e (same s) }
    ]

    pub create_row-Keeps :
        (mk : ℕ → ℕ → Row) (s : S)
        → ((n at : ℕ)
            → All (λ x. t.id x < n) (t.rows_of s)
            → R s (t.with_rows s (t.rows_of s ++ mk n at ∷ [])))
        → Keeps R (create_row db t mk) s
    unfolding create_row
    create_row-Keeps mk s h = elim (db.create_law t.id mk (t.rows_of s)) [
      | inl (n, at, e, pos, above) ↦ record { kept = rw e (h n at above) }
      | inr e ↦ record { kept = rw e (same s) }
    ]

-- A query, and then what is done with what it finds.
pub first?-Keeps_found :
    {S A : Type 0} (R : S → S → Type 0) (same : (s : S) → R s s) (db : Gorm) {Row : Type 0}
    (t : Table S Row) (p : Row → Bool) (k : Option Row → Exec S A) (s : S)
    → Keeps R (k (find p (t.rows_of s))) s
    → Keeps R (first? db t p >>= k) s
unfolding ◌>>=◌ first?
first?-Keeps_found {S = S} R same db {Row = Row} t p k s h = elim (db.first_law p (t.rows_of s)) [
  | inl e ↦ record { kept = rw e (go (find p (t.rows_of s)) h) }
  | inr e ↦ record { kept = rw e (same s) }
]
  where
    go : (o : Option Row) → Keeps R (k o) s → R s (proceed k (reply (found (or_not_found o)) s)).1
    go none q = q.kept
    go (some x) q = q.kept

-- A test, whose outcome is known in each branch.
pub test-Keeps :
    {S A : Type 0} (R : S → S → Type 0) (b : Bool) (m n : Exec S A) (s : S)
    → (b ≡ true → Keeps R m s)
    → (b ≡ false → Keeps R n s)
    → Keeps R (if b then m else n) s
test-Keeps R true m n s h k = h refl
test-Keeps R false m n s h k = k refl
