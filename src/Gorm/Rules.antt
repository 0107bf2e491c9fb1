-- ===== src/Gorm/Rules.antt =====
-- Postconditions of the handlers' parts: what they mean, and the rules for sequences, tests and
-- transactions. A failing statement ends a part with a database error, about which a postcondition
-- says nothing but that it happened. Gorm/Statements has one rule for each statement.
use olimpo.Common.{◌≡◌, refl, inl, inr, Bool, true, false, if◌then◌else◌}
use olimpo.Errors.{Refusal, Error, refused, database, entropy, Result, ok, err}
use olimpo.Gorm.{Gorm, Exec, pure, refuse, ◌>>=◌, proceed}

-- `G` holds of what is returned and of the state left, `B` of the refusal.
abbrev pub Outcome :
    {S A : Type 0} → (A → S → Type 0) → (Refusal → Type 0) → Result Error A × S → Type 0
Outcome G B (ok a, s) = G a s
Outcome G B (err (refused r), s) = B r
Outcome G B (err (database e), s) = Unit
Outcome G B (err entropy, s) = Unit

pub record Ensures {S A : Type 0} (G : A → S → Type 0) (B : Refusal → Type 0) (m : Exec S A) (s : S)
    : Type 0 where
  pub holds : Outcome G B (m s)

-- The same of a whole operation, which leaves the state alone where it fails.
abbrev pub AtomicOutcome :
    {S A : Type 0} → (A → S → Type 0) → (Refusal → Type 0) → S → Result Error A × S → Type 0
AtomicOutcome G B s₀ (ok a, s) = G a s
AtomicOutcome G B s₀ (err (refused r), s) = B r × (s ≡ s₀)
AtomicOutcome G B s₀ (err (database e), s) = s ≡ s₀
AtomicOutcome G B s₀ (err entropy, s) = s ≡ s₀

pub record Atomic {S A : Type 0} (G : A → S → Type 0) (B : Refusal → Type 0) (m : Exec S A) (s : S)
    : Type 0 where
  pub holds : AtomicOutcome G B s (m s)

module _ {S A : Type 0} {G : A → S → Type 0} {B : Refusal → Type 0} where
  pub Ensures-pure : (a : A) (s : S) → G a s → Ensures G B (pure a) s
  unfolding pure
  Ensures-pure a s h = record { holds = h }

  pub Ensures-refuse : (r : Refusal) (s : S) → B r → Ensures G B (refuse r) s
  unfolding refuse
  Ensures-refuse r s h = record { holds = h }

  pub Ensures-if :
      (b : Bool) (m n : Exec S A) (s : S)
      → (b ≡ true → Ensures G B m s)
      → (b ≡ false → Ensures G B n s)
      → Ensures G B (if b then m else n) s
  Ensures-if true m n s h k = h refl
  Ensures-if false m n s h k = k refl

  pub Atomic-refuse : (r : Refusal) (s : S) → B r → Atomic G B (refuse r) s
  unfolding refuse
  Atomic-refuse r s h = record { holds = (h, refl) }

  pub Atomic-if :
      (b : Bool) (m n : Exec S A) (s : S)
      → (b ≡ true → Atomic G B m s)
      → (b ≡ false → Atomic G B n s)
      → Atomic G B (if b then m else n) s
  Atomic-if true m n s h k = h refl
  Atomic-if false m n s h k = k refl

  -- A transaction commits all that its body did, or nothing.
  pub transaction-Atomic :
      (db : Gorm) (body : Exec S A) (s : S)
      → Ensures G B body s
      → Atomic G B (db.transaction body) s
  transaction-Atomic db body s h = record { holds = go (body s) refl h.holds }
    where
      go :
          (o : Result Error A × S)
          → body s ≡ o
          → Outcome G B o
          → AtomicOutcome G B s (db.transaction body s)
      go (ok a, s') e p = elim (db.commit_law body s a s' e) [ inl c ↦ rw c p | inr c ↦ rw c refl ]
      go (err (refused r), s') e p = rw (db.rollback_law body s (refused r) s' e) (p, refl)
      go (err (database d), s') e p = rw (db.rollback_law body s (database d) s' e) refl
      go (err entropy, s') e p = rw (db.rollback_law body s entropy s' e) refl

-- A weaker postcondition.
pub Ensures-weaken :
    {S A : Type 0} {G H : A → S → Type 0} {B : Refusal → Type 0} (m : Exec S A) (s : S)
    → ((a : A) (t : S) → G a t → H a t)
    → Ensures G B m s
    → Ensures H B m s
Ensures-weaken {S = S} {A = A} {G = G} {H = H} {B = B} m s f h = record { holds = go (m s) h.holds }
  where
    go : (o : Result Error A × S) → Outcome G B o → Outcome H B o
    go (ok a, t) p = f a t p
    go (err (refused r), t) p = p
    go (err (database e), t) p = tt
    go (err entropy, t) p = tt

-- Another account of the refusals.
pub Ensures-refusals :
    {S A : Type 0} {G : A → S → Type 0} {B C : Refusal → Type 0} (m : Exec S A) (s : S)
    → ((r : Refusal) → B r → C r)
    → Ensures G B m s
    → Ensures G C m s
Ensures-refusals {S = S} {A = A} {G = G} {B = B} {C = C} m s f h = record {
  holds = go (m s) h.holds;
}
  where
    go : (o : Result Error A × S) → Outcome G B o → Outcome G C o
    go (ok a, t) p = p
    go (err (refused r), t) p = f r p
    go (err (database e), t) p = tt
    go (err entropy, t) p = tt

pub Atomic-Ensures :
    {S A : Type 0} {G : A → S → Type 0} {B : Refusal → Type 0} (m : Exec S A) (s : S)
    → Atomic G B m s
    → Ensures G B m s
Atomic-Ensures {S = S} {A = A} {G = G} {B = B} m s h = record { holds = go (m s) h.holds }
  where
    go : (o : Result Error A × S) → AtomicOutcome G B s o → Outcome G B o
    go (ok a, t) p = p
    go (err (refused r), t) p = p.0
    go (err (database e), t) p = tt
    go (err entropy, t) p = tt

module _ {S A C : Type 0} {G : A → S → Type 0} {B : Refusal → Type 0} where
  pub Ensures-bind :
      (Mid : C → S → Type 0) (m : Exec S C) (k : C → Exec S A) (s : S)
      → Ensures Mid B m s
      → ((c : C) (s' : S) → Mid c s' → Ensures G B (k c) s')
      → Ensures G B (m >>= k) s
  unfolding ◌>>=◌
  Ensures-bind Mid m k s h n = record { holds = go (m s) h.holds }
    where
      go : (o : Result Error C × S) → Outcome Mid B o → Outcome G B (proceed k o)
      go (ok c, s') p = (n c s' p).holds
      go (err (refused r), s') p = p
      go (err (database e), s') p = tt
      go (err entropy, s') p = tt
