-- ===== src/Credential/Validate.antt =====
-- StartValidation, from a sound state.
use olimpo.Common.{ℕ, ◌≡◌, refl, sym, ◌≢◌, inl, inr, some, nat_eq, subst}
use olimpo.Gorm.{Gorm}
use olimpo.Gorm.Rules.{Atomic, Ensures-if, Ensures-refuse, transaction-Atomic}
use olimpo.Gorm.Statements.{first_or-Ensures, update_where-Ensures, first_or-Ensures_last}
use olimpo.Model.{
  Database, DdnsCredentialRotation, CredentialStatus, RotationStatus, rotation_status_eq,
  ddns_credentials_table, rotations_table,
}
use olimpo.Credential.Base.{activate, to_validating}
use olimpo.Credential.Advance.{load_rotation, start_validation_tx, start_validation}
use olimpo.Credential.Invariant.{
  rotation_at, HasCredential, Supported, IsSound, moved, move-IsSound,
}
use olimpo.Credential.Changes.{
  changed, changed-Ascending, changed-Frame, changed_other, changed_hit, HasCredential-count,
  HasCredential-ne, affects_one, moved_at, moved_at,
}
use olimpo.Credential.Steps.{
  Unfit, loaded, deref-Ensures, one_row-Ensures, same_status, other_status,
}

module _ (s : Database) (now : ℕ) (r : DdnsCredentialRotation) (n : ℕ) where
  -- What StartValidation makes of a database.
  abbrev validated : ℕ → Database
  validated d = record s {
    ddns_credentials = changed s.ddns_credentials n d CredentialStatus.pending (activate now);
    rotations = moved s r (to_validating now);
  }

  -- The candidate becomes active beside the credential that it replaces.
  validated-IsSound :
      IsSound s
      → rotation_at r.id s.rotations ≡ some r
      → r.status ≡ RotationStatus.staged
      → r.new_credential_id ≡ some n
      → HasCredential s.ddns_credentials n r.device_id CredentialStatus.pending
      → HasCredential s.ddns_credentials r.previous_credential_id r.device_id
          CredentialStatus.active
      → IsSound (validated r.device_id)
  validated-IsSound v at st new pending active =
      let asc = v.credentials_ascending in
      let (c, _, c_dev, _, c_new) =
        changed_hit s.ddns_credentials n r.device_id CredentialStatus.pending (activate now)
          (λ c. refl) asc (HasCredential-count s.ddns_credentials _ _ _ asc pending) in
      let apart : n ≢ r.previous_credential_id =
        HasCredential-ne s.ddns_credentials _ _ _ _ _ _ (λ e. cc) pending active in
      move-IsSound s v r _ (to_validating now) at (rw st refl)
        (changed-Ascending _ _ _ _ _ (λ c. refl) asc) (changed-Frame _ _ _ _ _ (λ c. refl))
        (λ x. refl) (λ x. refl)
        (
          n,
          new,
          apart,
          (activate now c, c_new, c_dev, refl),
          changed_other _ _ _ _ _ (λ c. refl) _ _ _ (λ e. apart (sym e)) active,
        )

-- The rotation waits for the first use of its replacement.
abbrev pub Validated : ℕ → DdnsCredentialRotation → Database → Type 0
Validated rotation_id r s' =
    IsSound s'
    × (rotation_at rotation_id s'.rotations ≡ some r)
    × (r.status ≡ RotationStatus.validating)

module _ (db : Gorm) (s : Database) (v : IsSound s) (rotation_id device_id now : ℕ) where
  -- From a sound database, a start that succeeds leaves the rotation validating and the database
  -- sound, and is refused only where the device has no such rotation or the rotation is not staged.
  -- Whatever fails, the database is as before.
  pub start_validation_Sound :
      Atomic
        (Validated rotation_id)
        (Unfit s rotation_id device_id RotationStatus.staged)
        (start_validation db rotation_id device_id now)
        s
  unfolding start_validation start_validation_tx load_rotation
  start_validation_Sound = transaction-Atomic db _ s (
      first_or-Ensures db rotations_table _ _ _ s (λ h. inl (refl, h))
        λ r h.
          Ensures-if _ _ _ s (λ t. Ensures-refuse _ s (inr (r, refl, h, other_status _ _ t)))
            λ t.
              let (own, dev, at) = loaded s v rotation_id device_id r h in
              let st : r.status ≡ RotationStatus.staged = same_status _ _ t in
              let (n, new, pending, active) =
                subst (Supported s.ddns_credentials r) st (v.supported r.id r at) in
              let sound : IsSound (validated s now r n device_id) =
                subst (λ d. IsSound (validated s now r n d)) dev
                  (validated-IsSound s now r n v at st new pending active) in
              deref-Ensures r.new_credential_id n _ s new (
                update_where-Ensures db ddns_credentials_table _ _ _ s (
                  one_row-Ensures _ _ _ (affects_one s v n r.device_id device_id _ dev pending) (
                    update_where-Ensures db rotations_table _ _ _ _ (
                      first_or-Ensures_last db rotations_table _ _ _ λ x e.
                        let x_new : x ≡ to_validating now r =
                          moved_at s r (to_validating now) x at (λ x. refl) e in
                        (
                          sound,
                          subst (λ i. rotation_at i (moved s r (to_validating now)) ≡ some x) own e,
                          rw x_new refl,
                        ))))))
