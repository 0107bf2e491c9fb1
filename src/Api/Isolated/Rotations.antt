-- ===== src/Api/Isolated/Rotations.antt =====
-- StageCandidate and StartValidation, as an agent calls them, touch its device's rows alone.
use olimpo.Common.{
  ℕ, ◌≡◌, refl, ◌∙◌, ◌&&◌, foreign, some, List, [], ◌∷◌, ◌++◌, Text, arith, not, ◌==◌, nat_eq,
  nat_beq_iff, find, find_holds, update_rows, find_unique, foreign-update_row, foreign-update_where,
  foreign-append,
}
use olimpo.Gorm.{Gorm}
use olimpo.Gorm.Rules.{Ensures, Ensures-pure, Atomic, transaction-Atomic}
use olimpo.Gorm.Statements.{
  first_or-Ensures, first_or-Ensures_last, update_where-Ensures, create_row-Ensures,
}
use olimpo.Model.{
  Database, DdnsCredential, DdnsCredentialRotation, CredentialStatus, ddns_credentials_table,
  rotations_table,
}
use olimpo.Text.{trim_space, to_lower}
use olimpo.Credential.Base.{valid_hex_bytes, credential_where, activate, to_staged, to_validating}
use olimpo.Credential.Advance.{
  load_rotation, stage_candidate, stage_candidate_tx, start_validation, start_validation_tx,
}
use olimpo.Credential.Changes.{credential_where_holds}
use olimpo.Api.Isolated.{
  HasKeys, Isolated, Atomic-Isolated, Stays, Any, refused-Stays, refused-Atomic, deref-Stays,
}

module _ (d : ℕ) (s : Database) (keys : HasKeys s) where
  -- A rotation of the device.
  own_rotation :
      (i : ℕ) (r : DdnsCredentialRotation)
      → find (λ x. x.id == i && x.device_id == d) s.rotations ≡ some r
      → r.device_id ≡ d
  own_rotation i r h = ground (arith, find_holds _ s.rotations r h, nat_beq_iff r.device_id d)

  -- What both write: credentials and the rotation.
  changed_own :
      (cs : List DdnsCredential) (i : ℕ) (r : DdnsCredentialRotation)
      (f : DdnsCredentialRotation → DdnsCredentialRotation)
      → foreign (λ x. x.device_id) d cs ≡ foreign (λ x. x.device_id) d s.ddns_credentials
      → find (λ x. x.id == i && x.device_id == d) s.rotations ≡ some r
      → ((x : DdnsCredentialRotation) → (f x).device_id ≡ x.device_id)
      → Isolated d s (record s {
        ddns_credentials = cs;
        rotations = update_rows (λ x. x.id == r.id) f s.rotations;
      })
  changed_own cs i r f same h k =
      let own = own_rotation i r h in
      let moved =
        foreign-update_row (λ x. x.id) (λ x. x.device_id) d f s.rotations r
          (find_unique (λ x. x.id) _ s.rotations r keys.rotations h) own (k r ∙ own) in
      ground arith

  staged_own :
      (i n now : ℕ) (c : DdnsCredential) (r : DdnsCredentialRotation)
      → c.device_id ≡ d
      → find (λ x. x.id == i && x.device_id == d) s.rotations ≡ some r
      → Isolated d s (record s {
        ddns_credentials = s.ddns_credentials ++ c ∷ [];
        rotations = update_rows (λ x. x.id == r.id) (to_staged n now) s.rotations;
      })
  staged_own i n now c r own h =
      changed_own _ i r (to_staged n now)
        (foreign-append (λ x. x.device_id) d s.ddns_credentials (c ∷ []) (own, tt)) h (λ x. refl)

  module _ (db : Gorm) where
    stage_candidate_tx-Stays :
        (i : ℕ) (key_id secret_hash : Text) (now : ℕ)
        → Ensures (Stays d s) Any (stage_candidate_tx db i d key_id secret_hash now) s
    unfolding stage_candidate_tx load_rotation
    stage_candidate_tx-Stays i key_id secret_hash now =
        first_or-Ensures db rotations_table _ _ _ s (λ _. tt)
          λ r h. refused-Stays d s _ _ _ s (
            first_or-Ensures db ddns_credentials_table _ _ _ s (λ _. tt)
              λ p _. create_row-Ensures db ddns_credentials_table _ _ s λ n at _ _.
                update_where-Ensures db rotations_table _ _ _ _
                  (Ensures-pure _ _ (staged_own i n now _ r refl h)))

    stage_candidate-Stays :
        (i : ℕ) (key_id secret_hash : Text) (now : ℕ)
        → Atomic (Stays d s) Any (stage_candidate db i d key_id secret_hash now) s
    unfolding stage_candidate
    stage_candidate-Stays i key_id secret_hash now =
        refused-Atomic d s (not (valid_hex_bytes (to_lower (trim_space key_id)) 8)) _ _ (
          refused-Atomic d s (not (valid_hex_bytes (to_lower (trim_space secret_hash)) 32)) _ _
            (transaction-Atomic db _ s (stage_candidate_tx-Stays i _ _ now)))

    start_validation-Stays : (i now : ℕ) → Atomic (Stays d s) Any (start_validation db i d now) s
    unfolding start_validation start_validation_tx load_rotation
    start_validation-Stays i now = transaction-Atomic db _ s (
        first_or-Ensures db rotations_table _ _ _ s (λ _. tt)
          λ r h. refused-Stays d s _ _ _ s (
            deref-Stays d s r.new_credential_id _ s λ n.
              update_where-Ensures db ddns_credentials_table _ _ _ s (
                refused-Stays d s _ _ _ _ (
                  update_where-Ensures db rotations_table _ _ _ _ (
                    first_or-Ensures_last db rotations_table _ _ _ λ x e.
                      changed_own _ i r (to_validating now)
                        (foreign-update_where (λ x. x.id) (λ x. x.device_id) d
                          (credential_where n d CredentialStatus.pending) (activate now)
                          s.ddns_credentials
                          (λ c t. (credential_where_holds n d CredentialStatus.pending c t).1)
                          (λ c. refl))
                        h (λ x. refl))))))

    pub stage_candidate-Isolated :
        (i : ℕ) (key_id secret_hash : Text) (now : ℕ)
        → Isolated d s (stage_candidate db i d key_id secret_hash now s).1
    stage_candidate-Isolated i key_id secret_hash now =
        Atomic-Isolated d (stage_candidate db i d key_id secret_hash now) s (λ a t h. h)
          (stage_candidate-Stays i key_id secret_hash now)

    pub start_validation-Isolated : (i now : ℕ) → Isolated d s (start_validation db i d now s).1
    start_validation-Isolated i now =
        Atomic-Isolated d (start_validation db i d now) s (λ a t h. h)
          (start_validation-Stays i now)
