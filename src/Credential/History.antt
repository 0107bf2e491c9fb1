-- ===== src/Credential/History.antt =====
-- The credential service over any sequence of its calls, each with its own database behaviour.
use olimpo.Common.{ℕ, ◌≡◌, sym, subst, Bool, true, false, none, some, Text, ℤ}
use olimpo.Errors.{Refusal, Error, refused, database, entropy, Result, ok, err}
use olimpo.Gorm.{Gorm}
use olimpo.Gorm.Rules.{AtomicOutcome}
use olimpo.Model.{Database, DdnsCredentialRotation, CredentialStatus, RotationStatus}
use olimpo.Credential.Base.{is_open}
use olimpo.Credential.Advance.{
  request_rotation, stage_candidate, start_validation, confirm_credential_use,
}
use olimpo.Credential.Finish.{Reconciled, reconcile_expired_grace, rollback}
use olimpo.Credential.Invariant.{rotation_at, HasCredential, Supported, IsSound}
use olimpo.Credential.Request.{request_rotation_Sound}
use olimpo.Credential.Stage.{stage_candidate_Sound}
use olimpo.Credential.Validate.{start_validation_Sound}
use olimpo.Credential.Confirm.{Confirmed, confirm_credential_use_Sound}
use olimpo.Credential.Loop.{Reconciles, reconcile_expired_grace_Sound}
use olimpo.Credential.Undo.{rollback_Sound}

-- A call of a method that writes, with its arguments and the times that it reads.
pub data Call : Type 0 where
  request : ℕ → ℤ → ℕ → Call
  stage : ℕ → ℕ → Text → Text → ℕ → Call
  validate : ℕ → ℕ → ℕ → Call
  use_credential : ℕ → ℕ → Call
  reconcile : ℕ → Call
  roll_back : ℕ → ℕ → Text → ℕ → ℕ → Call

-- The database that a call leaves.
unfoldable pub run : Gorm → Call → Database → Database
run db (request d g now) s = (request_rotation db d g now s).1
run db (stage i d key hash now) s = (stage_candidate db i d key hash now s).1
run db (validate i d now) s = (start_validation db i d now s).1
run db (use_credential i now) s = (confirm_credential_use db i now s).1
run db (reconcile now) s = (reconcile_expired_grace db now s).1
run db (roll_back i d reason now later) s = (rollback db i d reason now later s).1

pub data Reach (s : Database) : Database → Type 1 where
  here : Reach s s
  next : {t : Database} → Reach s t → (db : Gorm) (c : Call) → Reach s (run db c t)

-- An operation that leaves the database alone where it fails keeps what its success keeps.
Atomic-keeps :
    {A : Type 0} (P : Database → Type 0) (G : A → Database → Type 0) (B : Refusal → Type 0)
    (s : Database) (o : Result Error A × Database)
    → ((a : A) (t : Database) → G a t → P t)
    → P s
    → AtomicOutcome G B s o
    → P o.1
Atomic-keeps P G B s (ok a, t) f h g = f a t g
Atomic-keeps P G B s (err (refused r), t) f h g = subst P (sym g.1) h
Atomic-keeps P G B s (err (database e), t) f h g = subst P (sym g) h
Atomic-keeps P G B s (err entropy, t) f h g = subst P (sym g) h

Confirmed-IsSound :
    (s : Database) (i now : ℕ) (b : Bool) (t : Database)
    → IsSound s
    → Confirmed s i now b t
    → IsSound t
Confirmed-IsSound s i now true t v h = h.0
Confirmed-IsSound s i now false t v h = subst IsSound (sym h.1) v

Reconciles-IsSound :
    (now : ℕ) (s : Database) (o : Reconciled × Database) → Reconciles now s o → IsSound o.1
Reconciles-IsSound now s ((n, none), t) h = h.0
Reconciles-IsSound now s ((n, some e), t) h = h.0

-- Every call of a method of the credential service takes a sound database to a sound one, whether it
-- succeeds, is refused or fails, and whatever the database answers within its laws.
pub run-IsSound : (db : Gorm) (c : Call) (s : Database) → IsSound s → IsSound (run db c s)
unfolding run
run-IsSound db (request d g now) s v =
    Atomic-keeps IsSound _ _ s (request_rotation db d g now s) (λ a t h. h.0) v
      (request_rotation_Sound db s v d g now).holds
run-IsSound db (stage i d key hash now) s v =
    Atomic-keeps IsSound _ _ s (stage_candidate db i d key hash now s) (λ a t h. h.0) v
      (stage_candidate_Sound db s v i d key hash now).holds
run-IsSound db (validate i d now) s v =
    Atomic-keeps IsSound _ _ s (start_validation db i d now s) (λ a t h. h.0) v
      (start_validation_Sound db s v i d now).holds
run-IsSound db (use_credential i now) s v =
    Atomic-keeps IsSound _ _ s (confirm_credential_use db i now s)
      (λ a t h. Confirmed-IsSound s i now a t v h) v
      (confirm_credential_use_Sound db s v i now).holds
run-IsSound db (reconcile now) s v =
    Reconciles-IsSound now s (reconcile_expired_grace db now s)
      (reconcile_expired_grace_Sound db now s v)
run-IsSound db (roll_back i d reason now later) s v =
    Atomic-keeps IsSound _ _ s (rollback db i d reason now later s) (λ a t h. h.0) v
      (rollback_Sound db s v i d reason now later).holds

Reach-IsSound : {s t : Database} → IsSound s → Reach s t → IsSound t
Reach-IsSound v here = v
Reach-IsSound v (next {t = t} r db c) = run-IsSound db c t (Reach-IsSound v r)

open-active :
    (s : Database) (r : DdnsCredentialRotation) (status : RotationStatus)
    → is_open status ≡ true
    → Supported s.ddns_credentials r status
    → (i : ℕ) × HasCredential s.ddns_credentials i r.device_id CredentialStatus.active
open-active s r RotationStatus.requested o (_, h) = (r.previous_credential_id, h)
open-active s r RotationStatus.staged o (n, _, _, h) = (r.previous_credential_id, h)
open-active s r RotationStatus.validating o (n, _, _, h, _) = (n, h)
open-active s r RotationStatus.grace o (n, t, _, _, h, _) = (n, h)
open-active s r RotationStatus.completed o h = absurd (cc)
open-active s r RotationStatus.rolled_back o h = absurd (cc)

-- From a sound database, after any calls of the service in any order and with any failures, a device
-- whose rotation is open has an active credential.
pub never_locked_out :
    {s t : Database}
    → IsSound s
    → Reach s t
    → (j : ℕ) (r : DdnsCredentialRotation) → rotation_at j t.rotations ≡ some r
    → is_open r.status ≡ true
    → (i : ℕ) × HasCredential t.ddns_credentials i r.device_id CredentialStatus.active
never_locked_out {t = t} v reach j r at o =
    open-active t r r.status o ((Reach-IsSound v reach).supported j r at)
