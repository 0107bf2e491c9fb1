-- ===== src/Tests/Rotation.antt =====
-- A credential rotation from the request to its end.
use olimpo.Common.{◌≡◌, refl, List, [], ◌∷◌, map, find, update_rows, count, select}
use olimpo.Gorm.{
  ◌>>=◌, first_or, first?, newest_rows, count_rows, update_where, create_row, find_rows,
}
use olimpo.Gorm.Memory.{memory}
use olimpo.Model.{Database, CredentialStatus, RotationStatus}
use olimpo.Text.{text, trim_space, to_lower, hex_decode}
use olimpo.Credential.Base.{valid_hex_bytes}
use olimpo.Credential.Advance.{
  request_rotation, request_rotation_tx, only_active, stage_candidate, stage_candidate_tx,
  start_validation, start_validation_tx, load_rotation, confirm_credential_use,
  confirm_credential_use_tx, confirm_rotation,
}
use olimpo.Credential.Finish.{
  reconcile_expired_grace, reconcile_loop, complete_rotation_tx, complete_rotation, rollback,
  rollback_tx, undo, revoke_replacement,
}
use olimpo.Credential.History.{run, reconcile, roll_back}
use olimpo.Tests.Sample.{grace_db}

abbrev statuses : Database → List CredentialStatus
statuses s = map (λ c. c.status) s.ddns_credentials

abbrev states : Database → List RotationStatus
states s = map (λ r. r.status) s.rotations

grace_statuses : statuses grace_db ≡ CredentialStatus.grace ∷ CredentialStatus.active ∷ []
unfolding run request_rotation request_rotation_tx only_active stage_candidate stage_candidate_tx
    start_validation start_validation_tx load_rotation confirm_credential_use
    confirm_credential_use_tx confirm_rotation valid_hex_bytes trim_space to_lower hex_decode find
    update_rows count select first_or first? newest_rows count_rows update_where create_row ◌>>=◌
grace_statuses = refl

-- The grace of 30 minutes began at 400.
reconciled_statuses :
    (statuses (run memory (reconcile 1800000000399) grace_db) ≡ statuses grace_db)
    × (statuses (run memory (reconcile 1800000000400) grace_db)
        ≡ CredentialStatus.revoked ∷ CredentialStatus.active ∷ [])
    × (states (run memory (reconcile 1800000000400) grace_db) ≡ RotationStatus.completed ∷ [])
unfolding run request_rotation request_rotation_tx only_active stage_candidate stage_candidate_tx
    start_validation start_validation_tx load_rotation confirm_credential_use
    confirm_credential_use_tx confirm_rotation valid_hex_bytes trim_space to_lower hex_decode find
    update_rows count select first_or first? newest_rows count_rows update_where create_row ◌>>=◌
    reconcile_expired_grace reconcile_loop complete_rotation_tx complete_rotation find_rows
reconciled_statuses = (refl, refl, refl)

rolled_back_statuses :
    statuses (run memory (roll_back 1 7 (text "operator") 500 501) grace_db)
    ≡ CredentialStatus.active ∷ CredentialStatus.revoked ∷ []
unfolding run request_rotation request_rotation_tx only_active stage_candidate stage_candidate_tx
    start_validation start_validation_tx load_rotation confirm_credential_use
    confirm_credential_use_tx confirm_rotation valid_hex_bytes trim_space to_lower hex_decode find
    update_rows count select first_or first? newest_rows count_rows update_where create_row ◌>>=◌
    rollback rollback_tx undo revoke_replacement
rolled_back_statuses = refl
