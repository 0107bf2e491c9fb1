-- ===== src/Credential/Finish.antt =====
-- products/hermes/internal/credential/service.go: ReconcileExpiredGrace and Rollback.
use olimpo.Common.{
  ℕ, suc, Bool, true, false, not, ◌&&◌, Option, none, some, List, [], ◌∷◌, leb, ltb, ◌==◌, nat_eq,
  Text, if◌then◌else◌,
}
use olimpo.Errors.{invalid_rotation_state, credential, Error, Result, ok, err}
use olimpo.Gorm.{Gorm, Exec, pure, refuse, ◌>>=◌, ◌>>◌, first?, find_rows, update_where, update_row}
use olimpo.Model.{
  Database, DdnsCredentialRotation, CredentialStatus, RotationStatus, credential_status_eq,
  rotation_status_eq, ddns_credentials_table, rotations_table,
}
use olimpo.Credential.Base.{
  credential_where, one_row, deref, revoke, leave_grace, to_completed, to_rolled_back,
}
use olimpo.Credential.Advance.{load_rotation}

-- `grace_until IS NOT NULL AND grace_until <= ?`
abbrev pub expired_by : Option ℕ → ℕ → Bool
expired_by none now = false
expired_by (some t) now = leb t now

-- `GraceUntil == nil || !GraceUntil.After(now)`
abbrev pub not_after : Option ℕ → ℕ → Bool
not_after none now = true
not_after (some t) now = not (ltb now t)

-- `GraceUntil == nil || GraceUntil.After(now)`
abbrev pub still_running : Option ℕ → ℕ → Bool
still_running none now = true
still_running (some t) now = ltb now t

-- How many rotations were completed, and the error that ended the loop.
abbrev pub Reconciled : Type 0
Reconciled = ℕ × Option Error

-- `if err != nil { return completed, err }; if didComplete { completed++ }`
abbrev pub after_item :
    (ℕ → Database → Reconciled × Database)
    → ℕ
    → Result Error Bool × Database
    → Reconciled × Database
after_item next completed (ok true, s) = next (suc completed) s
after_item next completed (ok false, s) = next completed s
after_item next completed (err e, s) = ((completed, some e), s)

abbrev pub start_loop :
    (List DdnsCredentialRotation → Database → Reconciled × Database)
    → Result Error (List DdnsCredentialRotation) × Database
    → Reconciled × Database
start_loop loop (ok rotations, s) = loop rotations s
start_loop loop (err e, s) = ((0, some e), s)

module _ (db : Gorm) where
  unfoldable pub complete_rotation : ℕ → Option DdnsCredentialRotation → Exec Database Bool
  complete_rotation now none = pure false
  complete_rotation now (some rotation) =
      if still_running rotation.grace_until now then pure false else do
        affected ←
            update_where db ddns_credentials_table
              (credential_where rotation.previous_credential_id rotation.device_id
                CredentialStatus.grace)
              (revoke now)
        one_row affected do update_row db rotations_table rotation (to_completed now); pure true

  unfoldable pub complete_rotation_tx : DdnsCredentialRotation → ℕ → Exec Database Bool
  unfolding complete_rotation
  complete_rotation_tx item now = do
    rotation ← first? db rotations_table (λ r. r.id == item.id && r.status == RotationStatus.grace)
    complete_rotation now rotation

  -- The loop of ReconcileExpiredGrace, one transaction for each rotation. The first failure ends it.
  unfoldable pub reconcile_loop :
      ℕ → List DdnsCredentialRotation → ℕ → Database → Reconciled × Database
  reconcile_loop now [] completed s = ((completed, none), s)
  reconcile_loop now (item ∷ items) completed s =
      after_item (reconcile_loop now items) completed
        (db.transaction (complete_rotation_tx item now) s)

  -- ReconcileExpiredGrace
  unfoldable pub reconcile_expired_grace : ℕ → Database → Reconciled × Database
  unfolding reconcile_loop
  reconcile_expired_grace now s =
      start_loop (λ rotations. reconcile_loop now rotations 0)
        (find_rows db rotations_table
          (λ r. r.status == RotationStatus.grace && expired_by r.grace_until now) s)

  unfoldable pub revoke_replacement : ℕ → ℕ → CredentialStatus → ℕ → Exec Database (Unit {0})
  revoke_replacement credential_id device_id expected now = do
    affected ←
        update_where db ddns_credentials_table (credential_where credential_id device_id expected)
          (revoke now)
    one_row affected (pure tt)

  -- The `switch` of Rollback, at the status and the grace deadline of the rotation.
  unfoldable pub undo : DdnsCredentialRotation → RotationStatus → ℕ → ℕ → Exec Database (Unit {0})
  unfolding revoke_replacement
  undo rotation RotationStatus.requested device_id now = pure tt
  undo rotation RotationStatus.staged device_id now =
      deref rotation.new_credential_id
        λ replacement. revoke_replacement replacement device_id CredentialStatus.pending now
  undo rotation RotationStatus.validating device_id now =
      deref rotation.new_credential_id
        λ replacement. revoke_replacement replacement device_id CredentialStatus.active now
  undo rotation RotationStatus.grace device_id now = deref rotation.new_credential_id λ replacement.
      if not_after rotation.grace_until now then refuse (credential invalid_rotation_state) else do
        affected ←
            update_where db ddns_credentials_table
              (credential_where rotation.previous_credential_id device_id CredentialStatus.grace)
              leave_grace
        one_row affected (revoke_replacement replacement device_id CredentialStatus.active now)
  undo rotation _ device_id now = refuse (credential invalid_rotation_state)

  -- The first time is the one that the `switch` reads, the second that of the last update.
  unfoldable pub rollback_tx : ℕ → ℕ → Text → ℕ → ℕ → Exec Database (Unit {0})
  unfolding undo
  rollback_tx rotation_id device_id reason now later = do
    rotation ← load_rotation db rotation_id device_id
    undo rotation rotation.status device_id now
    update_row db rotations_table rotation (to_rolled_back later reason)
    pure tt

  -- Rollback
  unfoldable pub rollback : ℕ → ℕ → Text → ℕ → ℕ → Exec Database (Unit {0})
  rollback rotation_id device_id reason now later =
      db.transaction (rollback_tx rotation_id device_id reason now later)
