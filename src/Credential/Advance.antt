-- ===== src/Credential/Advance.antt =====
-- products/hermes/internal/credential/service.go: RequestRotation, CurrentRotation, StageCandidate,
-- StartValidation and ConfirmCredentialUse. Each method is an action on the database; the time that
-- it reads from `s.now()` is its last argument.
use olimpo.Common.{
  ℕ, Bool, true, false, not, ◌&&◌, ◌||◌, Option, none, some, List, [], ◌∷◌, ◌==◌, nat_eq, Text,
  if◌then◌else◌, ℤ, ltb_ℤ,
}
use olimpo.Errors.{
  CredentialError, no_active_credential, multiple_active, rotation_in_progress, rotation_not_found,
  invalid_rotation_state, invalid_grace_period, invalid_candidate_key_id, invalid_candidate_hash,
  credential, refused, database, record_not_found,
}
use olimpo.Gorm.{
  Gorm, Exec, pure, refuse, ◌>>=◌, ◌>>◌, first_or, first?, latest?, newest_rows, count_rows,
  update_where, update_row, create_row,
}
use olimpo.Model.{
  Database, DdnsCredential, DdnsCredentialRotation, CredentialStatus, RotationStatus,
  credential_status_eq, rotation_status_eq, devices_table, ddns_credentials_table, rotations_table,
}
use olimpo.Text.{trim_space, to_lower}
use olimpo.Credential.Base.{
  min_grace_minutes, max_grace_minutes, add_minutes, is_open, credential_where, active_device,
  invalid_state, one_row, valid_hex_bytes, is_some, points_to, deref, activate, confirm,
  enter_grace, to_staged, to_validating, to_grace,
}

-- `switch len(active)`
unfoldable pub only_active : List DdnsCredential → Exec Database DdnsCredential
only_active [] = refuse (credential no_active_credential)
only_active (c ∷ []) = pure c
only_active (c ∷ d ∷ rest) = refuse (credential multiple_active)

module _ (db : Gorm) where
  unfoldable pub request_rotation_tx : ℕ → ℤ → ℕ → Exec Database DdnsCredentialRotation
  unfolding only_active
  request_rotation_tx device_id grace_minutes now = do
    first_or db devices_table (refused (credential CredentialError.device_not_found))
        (active_device device_id)
    open_count ← count_rows db rotations_table (λ r. r.device_id == device_id && is_open r.status)
    if not (open_count == 0) then refuse (credential rotation_in_progress) else do
      active ←
          newest_rows db ddns_credentials_table 2
            (λ c. c.device_id == device_id && c.status == CredentialStatus.active)
      previous ← only_active active
      create_row db rotations_table (λ id at. record {
        id = id;
        created_at = at;
        device_id = device_id;
        previous_credential_id = previous.id;
        new_credential_id = none;
        status = RotationStatus.requested;
        grace_minutes = grace_minutes;
        requested_at = now;
        staged_at = none;
        validation_started_at = none;
        confirmed_at = none;
        grace_until = none;
        completed_at = none;
        rolled_back_at = none;
        last_error = [];
      })

  -- RequestRotation
  unfoldable pub request_rotation : ℕ → ℤ → ℕ → Exec Database DdnsCredentialRotation
  request_rotation device_id grace_minutes now =
      if ltb_ℤ grace_minutes min_grace_minutes || ltb_ℤ max_grace_minutes grace_minutes
      then refuse (credential invalid_grace_period)
      else db.transaction (request_rotation_tx device_id grace_minutes now)

  -- CurrentRotation
  unfoldable pub current_rotation : ℕ → Exec Database (Option DdnsCredentialRotation)
  current_rotation device_id =
      latest? db rotations_table (λ r. r.created_at)
        (λ r. r.device_id == device_id && is_open r.status)

  unfoldable pub load_rotation : ℕ → ℕ → Exec Database DdnsCredentialRotation
  load_rotation rotation_id device_id =
      first_or db rotations_table (refused (credential rotation_not_found))
        (λ r. r.id == rotation_id && r.device_id == device_id)

  unfoldable pub stage_candidate_tx : ℕ → ℕ → Text → Text → ℕ → Exec Database DdnsCredential
  unfolding load_rotation
  stage_candidate_tx rotation_id device_id key_id secret_hash now = do
    rotation ← load_rotation rotation_id device_id
    if not (rotation.status == RotationStatus.requested) || is_some rotation.new_credential_id
        then refuse (credential invalid_rotation_state)
        else do
          previous ←
              first_or db ddns_credentials_table invalid_state
                (credential_where rotation.previous_credential_id device_id CredentialStatus.active)
          candidate ← create_row db ddns_credentials_table (λ id at. record {
            id = id;
            device_id = device_id;
            key_id = key_id;
            secret_hash = secret_hash;
            status = CredentialStatus.pending;
            activated_at = none;
            confirmed_at = none;
            expires_at = none;
            revoked_at = none;
            grace_until = none;
            last_used_at = none;
            last_used_ip = [];
            replaces_credential_id = some previous.id;
          })
          update_row db rotations_table rotation (to_staged candidate.id now)
          pure candidate

  -- StageCandidate
  unfoldable pub stage_candidate : ℕ → ℕ → Text → Text → ℕ → Exec Database DdnsCredential
  unfolding stage_candidate_tx
  stage_candidate rotation_id device_id key_id secret_hash now =
      let key = to_lower (trim_space key_id) in
      let hash = to_lower (trim_space secret_hash) in
      if not (valid_hex_bytes key 8)
      then refuse (credential invalid_candidate_key_id)
      else if not (valid_hex_bytes hash 32)
      then refuse (credential invalid_candidate_hash)
      else db.transaction (stage_candidate_tx rotation_id device_id key hash now)

  unfoldable pub start_validation_tx : ℕ → ℕ → ℕ → Exec Database DdnsCredentialRotation
  unfolding load_rotation
  start_validation_tx rotation_id device_id now = do
    rotation ← load_rotation rotation_id device_id
    if not (rotation.status == RotationStatus.staged)
        then refuse (credential invalid_rotation_state)
        else deref rotation.new_credential_id λ replacement. do
          affected ←
              update_where db ddns_credentials_table
                (credential_where replacement device_id CredentialStatus.pending) (activate now)
          one_row affected do
            update_row db rotations_table rotation (to_validating now)
            first_or db rotations_table (database record_not_found) (λ r. r.id == rotation.id)

  -- StartValidation
  unfoldable pub start_validation : ℕ → ℕ → ℕ → Exec Database DdnsCredentialRotation
  start_validation rotation_id device_id now =
      db.transaction (start_validation_tx rotation_id device_id now)

  unfoldable pub confirm_rotation : ℕ → ℕ → Option DdnsCredentialRotation → Exec Database Bool
  confirm_rotation credential_id now none = pure false
  confirm_rotation credential_id now (some rotation) = do
    replacement ←
        first_or db ddns_credentials_table invalid_state
          (credential_where credential_id rotation.device_id CredentialStatus.active)
    let until = add_minutes now rotation.grace_minutes
    update_row db ddns_credentials_table replacement (confirm now)
    affected ←
        update_where db ddns_credentials_table
          (credential_where rotation.previous_credential_id rotation.device_id
            CredentialStatus.active)
          (enter_grace until)
    one_row affected do update_row db rotations_table rotation (to_grace now until); pure true

  unfoldable pub confirm_credential_use_tx : ℕ → ℕ → Exec Database Bool
  unfolding confirm_rotation
  confirm_credential_use_tx credential_id now = do
    rotation ←
        first? db rotations_table (λ r.
          points_to r.new_credential_id credential_id && r.status == RotationStatus.validating)
    confirm_rotation credential_id now rotation

  -- ConfirmCredentialUse: whether a rotation was advanced.
  unfoldable pub confirm_credential_use : ℕ → ℕ → Exec Database Bool
  confirm_credential_use credential_id now =
      db.transaction (confirm_credential_use_tx credential_id now)
