-- ===== src/Api/Admin/Rotations.antt =====
-- The handlers of credential_routes.go.
use olimpo.Common.{ℕ, Option, none, some, [], ◌==◌, nat_eq, ◌&&◌, Text, if◌then◌else◌, ℤ, pos, ltb}
use olimpo.Errors.{Error, CredentialError, credential, refused, Result, ok, err}
use olimpo.Gorm.{Gorm, first_or, ordered_rows}
use olimpo.Model.{Database, rotations_table}
use olimpo.Text.{text, is_empty}
use olimpo.Errors.{database, record_not_found}
use olimpo.Credential.Advance.{request_rotation}
use olimpo.Credential.Finish.{rollback, reconcile_expired_grace, Reconciled}
use olimpo.Api.Requests.{Status, credential_error}
use olimpo.Api.Devices.{or_default}
use olimpo.Api.Replies.{
  Body, Reply, Handler, reply_with, respond, Bound, with_optional_body, with_param,
}
use olimpo.Api.Admin.{bad_device, shown, query_error, where_exists, ensure_device_exists}

-- credentialRotationRequest
pub record RotationRequest : Type 0 where
  pub grace_minutes : ℤ

-- credentialRotationRollbackRequest
pub record RollbackRequest : Type 0 where
  pub reason : Text

-- `if req.Reason == "" { .. }`
abbrev pub reason_of : RollbackRequest → Text
reason_of req = if is_empty req.reason then text "administrator requested rollback" else req.reason

abbrev pub reconciled : Reconciled × Database → Reply × Database
reconciled ((n, none), s) = (reply_with Status.success (Body.completed n), s)
reconciled ((n, some e), s) = (reply_with (credential_error e) (Body.error_of e), s)

module _ (db : Gorm) where
  -- requestCredentialRotation
  unfoldable pub request_credential_rotation :
      (RotationRequest → Option Text) → Text → Bound RotationRequest → ℕ → Handler
  unfolding with_param with_optional_body
  request_credential_rotation valid param body now = with_param param bad_device λ device_id.
      with_optional_body record { grace_minutes = pos 0 } valid body
        λ req s.
          respond
            (λ r. reply_with Status.created (Body.rotation_step r (text "agent_stage_candidate")))
            credential_error
            (request_rotation db device_id (or_default (pos 30) req.grace_minutes) now s)

  -- listCredentialRotations
  unfoldable pub list_credential_rotations : Text → Handler
  unfolding with_param ensure_device_exists
  list_credential_rotations param = with_param param bad_device λ device_id s.
      where_exists
        (λ t. respond (shown Body.rotations) query_error (
          ordered_rows db rotations_table (λ a b. ltb b.created_at a.created_at)
            (λ r. r.device_id == device_id) t))
        (ensure_device_exists db device_id s)

  -- getCredentialRotation
  unfoldable pub get_credential_rotation : Text → Text → Handler
  unfolding with_param
  get_credential_rotation param rotation_param = with_param param bad_device λ device_id.
      with_param rotation_param (text "invalid rotation id") λ rotation_id s.
        respond (shown Body.rotation) credential_error (
          first_or db rotations_table (refused (credential CredentialError.rotation_not_found))
            (λ r. r.id == rotation_id && r.device_id == device_id) s)

  -- What follows Rollback.
  unfoldable pub after_rollback : ℕ → Result Error (Unit {0}) × Database → Reply × Database
  after_rollback rotation_id (ok u, s) =
      respond (shown (λ r. Body.rotation_step r (text "credential rotation rolled back")))
        query_error
        (first_or db rotations_table (database record_not_found) (λ r. r.id == rotation_id) s)
  after_rollback rotation_id (err e, s) = (reply_with (credential_error e) (Body.error_of e), s)

  -- rollbackCredentialRotation
  unfoldable pub rollback_credential_rotation :
      Text → Text → Bound RollbackRequest → ℕ → ℕ → Handler
  unfolding with_param with_optional_body after_rollback
  rollback_credential_rotation param rotation_param body now later =
      with_param param bad_device λ device_id.
        with_param rotation_param (text "invalid rotation id") λ rotation_id.
          with_optional_body record { reason = [] } (λ req. none) body
            λ req s.
              after_rollback rotation_id
                (rollback db rotation_id device_id (reason_of req) now later s)

  -- reconcileCredentialRotations
  unfoldable pub reconcile_credential_rotations : ℕ → Handler
  reconcile_credential_rotations now s = reconciled (reconcile_expired_grace db now s)
