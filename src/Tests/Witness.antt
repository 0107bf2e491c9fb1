-- ===== src/Tests/Witness.antt =====
-- The theorems about the credential service, at the steps of the rotation of Tests/Sample.
use olimpo.Common.{ℕ, ◌≡◌, refl, [], some, none, pos, find, update_rows, count, select}
use olimpo.Gorm.{◌>>=◌, first_or, newest_rows, count_rows, create_row}
use olimpo.Gorm.Memory.{memory}
use olimpo.Gorm.Rules.{Atomic}
use olimpo.Model.{DdnsCredentialRotation, CredentialStatus, RotationStatus}
use olimpo.Text.{text}
use olimpo.Credential.Advance.{request_rotation, request_rotation_tx, only_active, start_validation}
use olimpo.Credential.Finish.{reconcile_expired_grace, rollback}
use olimpo.Credential.Invariant.{rotation_at, HasCredential, IsSound}
use olimpo.Credential.Steps.{Unfit}
use olimpo.Credential.Validate.{Validated, start_validation_Sound}
use olimpo.Credential.Loop.{Reconciles, reconcile_expired_grace_Sound}
use olimpo.Credential.Undo.{RolledBack, NotReversible, rollback_Sound}
use olimpo.Credential.History.{
  run, request, use_credential, here, next, run-IsSound, never_locked_out,
}
use olimpo.Tests.Sample.{
  sample-IsSound, requested_db, staged_db, staged_db-IsSound, validating_db, validating_db-IsSound,
  grace_db, grace_db-IsSound,
}

abbrev requested_row : DdnsCredentialRotation
requested_row = record {
  id = 1;
  created_at = 0;
  device_id = 7;
  previous_credential_id = 1;
  new_credential_id = none;
  status = RotationStatus.requested;
  grace_minutes = pos 30;
  requested_at = 100;
  staged_at = none;
  validation_started_at = none;
  confirmed_at = none;
  grace_until = none;
  completed_at = none;
  rolled_back_at = none;
  last_error = [];
}

requested_row_at : rotation_at 1 requested_db.rotations ≡ some requested_row
unfolding run request_rotation request_rotation_tx only_active find update_rows count select
    first_or newest_rows count_rows create_row ◌>>=◌
requested_row_at = refl

never_locked_out_example :
    (i : ℕ) × HasCredential requested_db.ddns_credentials i 7 CredentialStatus.active
never_locked_out_example =
    never_locked_out sample-IsSound (next here memory (request 7 (pos 30) 100)) 1 requested_row
      requested_row_at refl

run-IsSound_example : IsSound (run memory (use_credential 2 400) validating_db)
run-IsSound_example = run-IsSound memory (use_credential 2 400) validating_db validating_db-IsSound

start_validation_Sound_example :
    Atomic
      (Validated 1)
      (Unfit staged_db 1 7 RotationStatus.staged)
      (start_validation memory 1 7 300)
      staged_db
start_validation_Sound_example = start_validation_Sound memory staged_db staged_db-IsSound 1 7 300

reconcile_expired_grace_Sound_example :
    Reconciles 1800000000400 grace_db (reconcile_expired_grace memory 1800000000400 grace_db)
reconcile_expired_grace_Sound_example =
    reconcile_expired_grace_Sound memory 1800000000400 grace_db grace_db-IsSound

rollback_Sound_example :
    Atomic
      (RolledBack grace_db 1 7 (text "operator") 500 501)
      (NotReversible grace_db 1 7 500)
      (rollback memory 1 7 (text "operator") 500 501)
      grace_db
rollback_Sound_example =
    rollback_Sound memory grace_db grace_db-IsSound 1 7 (text "operator") 500 501
