-- ===== src/Gorm/Queries.antt =====
-- Rules for statements outside any transaction: each leaves the state alone where it fails.
use olimpo.Common.{◌≡◌, refl, inl, inr, Bool, Option, none, some, List, find, update_rows, select}
use olimpo.Errors.{Refusal, Error}
use olimpo.Gorm.{
  Gorm, Exec, Table, ◌>>=◌, pure, first_or, find_rows, update_where, or_not_found, missing, proceed,
  refuse_as, blamed,
}
use olimpo.Gorm.Rules.{Atomic, AtomicOutcome}

module _ (db : Gorm) {S A : Type 0} {G : A → S → Type 0} {B : Refusal → Type 0} where
  -- A first row, where every failure is one refusal.
  pub first-Atomic :
      (refusal : Refusal) (r : Error) {Row : Type 0} (t : Table S Row) (p : Row → Bool)
      (k : Row → Exec S A) (s : S)
      → B refusal
      → ((x : Row) → find p (t.rows_of s) ≡ some x → Atomic G B (k x) s)
      → Atomic G B (refuse_as refusal (first_or db t r p) >>= k) s
  unfolding ◌>>=◌ first_or
  first-Atomic refusal r {Row = Row} t p k s b h = elim (db.first_law p (t.rows_of s)) [
    | inl e ↦ record { holds = rw e (go (find p (t.rows_of s)) refl) }
    | inr e ↦ record { holds = rw e (b, refl) }
  ]
    where
      go :
          (o : Option Row)
          → find p (t.rows_of s) ≡ o
          → AtomicOutcome G B s (proceed k (blamed refusal (missing r (or_not_found o), s)))
      go none e = (b, refl)
      go (some x) e = (h x e).holds

  pub rows-Atomic :
      (refusal : Refusal) {Row : Type 0} (t : Table S Row) (p : Row → Bool)
      (k : List Row → Exec S A) (s : S)
      → B refusal
      → Atomic G B (k (select p (t.rows_of s))) s
      → Atomic G B (refuse_as refusal (find_rows db t p) >>= k) s
  unfolding ◌>>=◌ find_rows
  rows-Atomic refusal t p k s b h = elim (db.rows_law p (t.rows_of s)) [
    | inl e ↦ record { holds = rw e h.holds }
    | inr e ↦ record { holds = rw e (b, refl) }
  ]

  pub update_pure-Atomic :
      {Row : Type 0} (t : Table S Row) (p : Row → Bool) (f : Row → Row) (a : A) (s : S)
      → G a (t.with_rows s (update_rows p f (t.rows_of s)))
      → Atomic G B (update_where db t p f >>= λ _. pure a) s
  unfolding ◌>>=◌ update_where
  update_pure-Atomic t p f a s h = elim (db.update_law p f (t.rows_of s)) [
    | inl e ↦ record { holds = rw e h }
    | inr e ↦ record { holds = rw e refl }
  ]
