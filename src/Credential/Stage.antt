-- ===== src/Credential/Stage.antt =====
-- StageCandidate, from a sound state.
use mathlib.Core.Option.{none-ne-some}
use olimpo.Common.{
  ℕ, ◌<◌, ◌≡◌, refl, sym, ◌∙◌, ap, ◌≢◌, ◌⊎◌, inl, inr, Bool, true, false, not, ◌||◌, some, arith,
  ◌==◌, nat_eq, subst, [], ◌∷◌, ◌++◌, All, Text, append-Ascending,
}
use olimpo.Errors.{invalid_candidate_key_id, invalid_candidate_hash, Refusal, credential}
use olimpo.Gorm.{Gorm}
use olimpo.Gorm.Rules.{
  Atomic, Ensures-if, Ensures-refuse, Ensures-pure, Atomic-if, Atomic-refuse, transaction-Atomic,
}
use olimpo.Gorm.Statements.{first_or-Ensures, create_row-Ensures, update_where-Ensures}
use olimpo.Model.{
  Database, DdnsCredential, DdnsCredentialRotation, CredentialStatus, RotationStatus,
  rotation_status_eq, ddns_credentials_table, rotations_table,
}
use olimpo.Text.{trim_space, to_lower}
use olimpo.Credential.Base.{is_some, to_staged, valid_hex_bytes}
use olimpo.Credential.Advance.{stage_candidate}
use olimpo.Credential.Invariant.{
  rotation_at, credential_at, HasCredential, Supported, IsSound, moved, move-IsSound,
}
use olimpo.Credential.Changes.{append_keeps, append_new, find-credential_where, at_moved}
use olimpo.Credential.Steps.{Unfit, loaded}

-- The texts as they are stored.
abbrev pub normalized : Text → Text
normalized t = to_lower (trim_space t)

abbrev pub NotStageable : Database → ℕ → ℕ → Text → Text → Refusal → Type 0
NotStageable s rotation_id device_id key_id secret_hash e =
    ((e ≡ credential invalid_candidate_key_id) × (valid_hex_bytes (normalized key_id) 8 ≡ false))
    ⊎ ((e ≡ credential invalid_candidate_hash)
        × (valid_hex_bytes (normalized secret_hash) 32 ≡ false))
    ⊎ Unfit s rotation_id device_id RotationStatus.requested e

abbrev pub Staged : ℕ → ℕ → Text → Text → DdnsCredential → Database → Type 0
Staged rotation_id device_id key_id secret_hash c s' =
    IsSound s'
    × (credential_at c.id s'.ddns_credentials ≡ some c)
    × (c.device_id ≡ device_id)
    × (c.key_id ≡ normalized key_id)
    × (c.secret_hash ≡ normalized secret_hash)
    × ((r : DdnsCredentialRotation) × (rotation_at rotation_id s'.rotations ≡ some r)
        × (r.status ≡ RotationStatus.staged)
        × (r.new_credential_id ≡ some c.id)
        × HasCredential s'.ddns_credentials r.previous_credential_id device_id
            CredentialStatus.active)

module _ (s : Database) (v : IsSound s) (now : ℕ) (r : DdnsCredentialRotation) (c : DdnsCredential)
    (at : rotation_at r.id s.rotations ≡ some r) (requested : r.status ≡ RotationStatus.requested)
    (above : All (λ x. x.id < c.id) s.ddns_credentials) (device : c.device_id ≡ r.device_id)
    (pending : c.status ≡ CredentialStatus.pending)
    (previous : HasCredential s.ddns_credentials r.previous_credential_id r.device_id
      CredentialStatus.active) where
  pub staged-IsSound : IsSound (record s {
    ddns_credentials = s.ddns_credentials ++ c ∷ [];
    rotations = moved s r (to_staged c.id now);
  })
  staged-IsSound =
      move-IsSound s v r (s.ddns_credentials ++ c ∷ []) (to_staged c.id now) at (rw requested refl)
        (append-Ascending (λ x. x.id) s.ddns_credentials c v.credentials_ascending above)
        (λ i e status _ h. append_keeps s.ddns_credentials c i e status h) (λ x. refl) (λ x. refl)
        (
          c.id,
          refl,
          (c, append_new s.ddns_credentials c above, device, pending),
          append_keeps s.ddns_credentials c _ _ _ previous,
        )

-- A refusal by the test on the rotation is one by its status.
unrequested :
    (s : Database) (v : IsSound s) (r : DdnsCredentialRotation)
    → rotation_at r.id s.rotations ≡ some r
    → (not (r.status == RotationStatus.requested) || is_some r.new_credential_id) ≡ true
    → r.status ≢ RotationStatus.requested
unrequested s v r at t same =
    let (new, _) = subst (Supported s.ddns_credentials r) same (v.supported r.id r at) in
    ground (arith, ap is_some new, rotation_status_eq.agrees r.status RotationStatus.requested)

requested_status :
    (r : DdnsCredentialRotation)
    → (not (r.status == RotationStatus.requested) || is_some r.new_credential_id) ≡ false
    → r.status ≡ RotationStatus.requested
requested_status r t = ground (arith, rotation_status_eq.agrees r.status RotationStatus.requested)

not_valid : (b : Bool) → not b ≡ true → b ≡ false
not_valid b h = ground arith

module _ (db : Gorm) (s : Database) (v : IsSound s) (rotation_id device_id : ℕ)
    (key_id secret_hash : Text) (now : ℕ) where
  pub stage_candidate_Sound :
      Atomic
        (Staged rotation_id device_id key_id secret_hash)
        (NotStageable s rotation_id device_id key_id secret_hash)
        (stage_candidate db rotation_id device_id key_id secret_hash now)
        s
  unfolding stage_candidate
  stage_candidate_Sound =
      Atomic-if _ _ _ s (λ bad. Atomic-refuse _ s (inl (refl, not_valid _ bad)))
        λ _.
          Atomic-if _ _ _ s (λ bad. Atomic-refuse _ s (inr (inl (refl, not_valid _ bad))))
            λ _. transaction-Atomic db _ s (
              first_or-Ensures db rotations_table _ _ _ s (λ h. inr (inr (inl (refl, h))))
                λ r h.
                  let (own, dev, at) = loaded s v rotation_id device_id r h in
                  Ensures-if _ _ _ s
                    (λ t. Ensures-refuse _ s (inr (inr (inr (r, refl, h, unrequested s v r at t)))))
                    λ t.
                      let st : r.status ≡ RotationStatus.requested = requested_status r t in
                      let (_, previous) =
                        subst (Supported s.ddns_credentials r) st (v.supported r.id r at) in
                      let owned =
                        subst
                          (λ d.
                            HasCredential s.ddns_credentials r.previous_credential_id d
                              CredentialStatus.active)
                          dev previous in
                      let (p, p_found, _) =
                        find-credential_where s.ddns_credentials _ _ _ v.credentials_ascending
                          owned in
                      first_or-Ensures db ddns_credentials_table _ _ _ s
                        (λ absent. absurd (none-ne-some p (sym absent ∙ p_found)))
                        λ q _.
                          create_row-Ensures db ddns_credentials_table _ _ s λ n created _ above.
                            update_where-Ensures db rotations_table _ _ _ _ (
                              Ensures-pure _ _ (
                                staged-IsSound s v now r _ at st above (sym dev) refl previous,
                                append_new s.ddns_credentials _ above,
                                refl,
                                refl,
                                refl,
                                (
                                  to_staged n now r,
                                  at_moved s r (to_staged n now) rotation_id own at (λ y. refl),
                                  refl,
                                  refl,
                                  append_keeps s.ddns_credentials _ _ _ _ owned,
                                ),
                              )))
