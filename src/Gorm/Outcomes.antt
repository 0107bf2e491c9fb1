-- ===== src/Gorm/Outcomes.antt =====
-- Consequences of an operation's outcome: of what follows it beside the database, and of the state
-- that it leaves.
use olimpo.Common.{sym, subst}
use olimpo.Errors.{Refusal, Error, refused, database, entropy, Result, ok, err}
use olimpo.Gorm.{Exec, pure, ◌>>=◌, proceed}
use olimpo.Gorm.Rules.{Atomic, AtomicOutcome}

module _ {S A : Type 0} {G : A → S → Type 0} {B : Refusal → Type 0} where
  -- A change of the result.
  pub Atomic-map :
      {C : Type 0} {H : C → S → Type 0} (m : Exec S A) (f : A → C) (s : S)
      → ((a : A) (t : S) → G a t → H (f a) t)
      → Atomic G B m s
      → Atomic H B (m >>= λ a. pure (f a)) s
  unfolding ◌>>=◌
  Atomic-map {C = C} {H = H} m f s h k = record { holds = go (m s) k.holds }
    where
      go :
          (o : Result Error A × S)
          → AtomicOutcome G B s o
          → AtomicOutcome H B s (proceed (λ a. pure (f a)) o)
      go (ok a, t) p = h a t p
      go (err (refused r), t) p = p
      go (err (database e), t) p = p
      go (err entropy, t) p = p

  -- Less of the result.
  pub Atomic-weaken :
      {H : A → S → Type 0} (m : Exec S A) (s : S)
      → ((a : A) (t : S) → G a t → H a t)
      → Atomic G B m s
      → Atomic H B m s
  Atomic-weaken {H = H} m s f k = record { holds = go (m s) k.holds }
    where
      go : (o : Result Error A × S) → AtomicOutcome G B s o → AtomicOutcome H B s o
      go (ok a, t) p = f a t p
      go (err (refused r), t) p = p
      go (err (database e), t) p = p
      go (err entropy, t) p = p

  -- More refusals.
  pub Atomic-refusals :
      {C : Refusal → Type 0} (m : Exec S A) (s : S)
      → ((r : Refusal) → B r → C r)
      → Atomic G B m s
      → Atomic G C m s
  Atomic-refusals {C = C} m s f k = record { holds = go (m s) k.holds }
    where
      go : (o : Result Error A × S) → AtomicOutcome G B s o → AtomicOutcome G C s o
      go (ok a, t) p = p
      go (err (refused r), t) p = (f r p.0, p.1)
      go (err (database e), t) p = p
      go (err entropy, t) p = p

  -- What holds of the state before, and of every state that a success leaves, holds afterwards.
  pub Atomic-after :
      (P : S → Type 0) (m : Exec S A) (s : S)
      → P s
      → ((a : A) (t : S) → G a t → P t)
      → Atomic G B m s
      → P (m s).1
  Atomic-after P m s h k o = go (m s) o.holds
    where
      go : (r : Result Error A × S) → AtomicOutcome G B s r → P r.1
      go (ok a, t) p = k a t p
      go (err (refused r), t) p = subst P (sym p.1) h
      go (err (database e), t) p = subst P (sym p) h
      go (err entropy, t) p = subst P (sym p) h
