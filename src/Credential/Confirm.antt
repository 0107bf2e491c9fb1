-- ===== src/Credential/Confirm.antt =====
-- ConfirmCredentialUse, from a sound state: it is never refused there.
use mathlib.Core.Option.{none-ne-some, some-injective}
use olimpo.Common.{
  ℕ, ◌≡◌, refl, sym, ◌∙◌, ◌≢◌, Bool, true, false, ◌&&◌, Option, none, some, arith, ◌==◌, nat_eq,
  find, subst, List, Ascending, update_rows-Ascending, update_rows, find_holds, find-by_id,
}
use olimpo.Gorm.{Gorm}
use olimpo.Gorm.Rules.{Ensures, Atomic, Ensures-pure, transaction-Atomic}
use olimpo.Gorm.Statements.{first_or-Ensures, first?-Ensures, update_where-Ensures}
use olimpo.Model.{
  Database, DdnsCredential, DdnsCredentialRotation, CredentialStatus, RotationStatus,
  rotation_status_eq, ddns_credentials_table, rotations_table,
}
use olimpo.Credential.Base.{points_to, confirm, enter_grace, to_grace, add_minutes}
use olimpo.Credential.Advance.{confirm_rotation, confirm_credential_use_tx, confirm_credential_use}
use olimpo.Credential.Invariant.{
  rotation_at, HasCredential, Supported, IsSound, moved, move-IsSound,
}
use olimpo.Credential.Changes.{
  changed, changed-Ascending, changed-Frame, changed_other, changed_hit, HasCredential-count,
  count-credential_where, find-credential_where, confirm_keeps, at_moved,
}
use olimpo.Credential.Steps.{one_row-Ensures}

-- The rotation that waits for the first use of a credential.
abbrev pub waits_for : ℕ → DdnsCredentialRotation → Bool
waits_for credential_id r =
    points_to r.new_credential_id credential_id && r.status == RotationStatus.validating

-- A use confirms the rotation that waits for it, and changes nothing where none waits.
abbrev pub Confirmed : Database → ℕ → ℕ → Bool → Database → Type 0
Confirmed s credential_id now false s' =
    (find (waits_for credential_id) s.rotations ≡ none) × (s' ≡ s)
Confirmed s credential_id now true s' =
    IsSound s'
    × ((r : DdnsCredentialRotation) × (find (waits_for credential_id) s.rotations ≡ some r)
        × (rotation_at r.id s'.rotations ≡ some (to_grace now (add_minutes now r.grace_minutes) r))
        × HasCredential s'.ddns_credentials credential_id r.device_id CredentialStatus.active
        × HasCredential s'.ddns_credentials r.previous_credential_id r.device_id
            CredentialStatus.grace)

waiting :
    (s : Database) (v : IsSound s) (credential_id : ℕ) (r : DdnsCredentialRotation)
    → find (waits_for credential_id) s.rotations ≡ some r
    → (rotation_at r.id s.rotations ≡ some r)
      × (r.new_credential_id ≡ some credential_id)
      × (r.status ≡ RotationStatus.validating)
waiting s v credential_id r h =
    let t : waits_for credential_id r ≡ true = find_holds _ s.rotations r h in
    (
      find-by_id (λ x. x.id) _ s.rotations r v.rotations_ascending h,
      ground arith,
      ground (arith, rotation_status_eq.agrees r.status RotationStatus.validating),
    )

module _ (s : Database) (v : IsSound s) (now : ℕ) (n : ℕ) (r : DdnsCredentialRotation)
    (p : DdnsCredential → Bool) (at : rotation_at r.id s.rotations ≡ some r)
    (validating : r.status ≡ RotationStatus.validating) (new : r.new_credential_id ≡ some n)
    (apart : n ≢ r.previous_credential_id)
    (replacement : HasCredential s.ddns_credentials n r.device_id CredentialStatus.active)
    (previous : HasCredential s.ddns_credentials r.previous_credential_id r.device_id
      CredentialStatus.active) where
  abbrev until : ℕ
  until = add_minutes now r.grace_minutes

  abbrev used : List DdnsCredential
  used = update_rows p (confirm now) s.ddns_credentials

  abbrev graced : List DdnsCredential
  graced =
      changed used r.previous_credential_id r.device_id CredentialStatus.active (enter_grace until)

  used-Ascending : Ascending (λ c. c.id) used
  used-Ascending =
      update_rows-Ascending (λ c. c.id) p (confirm now) s.ddns_credentials (λ c. refl)
        v.credentials_ascending

  used_previous : HasCredential used r.previous_credential_id r.device_id CredentialStatus.active
  used_previous = confirm_keeps p now s.ddns_credentials _ _ _ previous

  graced_previous : HasCredential graced r.previous_credential_id r.device_id CredentialStatus.grace
  graced_previous =
      let (c, _, dev, _, after) =
        changed_hit used _ _ _ (enter_grace until) (λ c. refl) used-Ascending
          (HasCredential-count used _ _ _ used-Ascending used_previous) in
      (enter_grace until c, after, dev, refl)

  graced_replacement : HasCredential graced n r.device_id CredentialStatus.active
  graced_replacement =
      changed_other used _ _ _ (enter_grace until) (λ c. refl) n r.device_id CredentialStatus.active
        apart (confirm_keeps p now s.ddns_credentials _ _ _ replacement)

  graced-IsSound :
      IsSound (record s { ddns_credentials = graced; rotations = moved s r (to_grace now until) })
  graced-IsSound =
      move-IsSound s v r graced (to_grace now until) at (rw validating refl)
        (changed-Ascending used _ _ _ (enter_grace until) (λ c. refl) used-Ascending)
        (λ i e status ne h.
          changed-Frame used _ _ _ (enter_grace until) (λ c. refl) i e status ne
            (confirm_keeps p now s.ddns_credentials i e status h))
        (λ x. refl) (λ x. refl) (n, until, new, refl, graced_replacement, graced_previous)

module _ (db : Gorm) (s : Database) (v : IsSound s) (credential_id now : ℕ) where
  confirm_rotation-Ensures :
      (o : Option DdnsCredentialRotation)
      → find (waits_for credential_id) s.rotations ≡ o
      → Ensures (Confirmed s credential_id now) (λ e. ⊥) (confirm_rotation db credential_id now o) s
  unfolding confirm_rotation
  confirm_rotation-Ensures none h = Ensures-pure false s (h, refl)
  confirm_rotation-Ensures (some r) h =
      let (at, new, st) = waiting s v credential_id r h in
      let (n, new', apart', new_active', previous) =
        subst (Supported s.ddns_credentials r) st (v.supported r.id r at) in
      let same : n ≡ credential_id = some-injective n credential_id (sym new' ∙ new) in
      let apart = subst (λ i. i ≢ r.previous_credential_id) same apart' in
      let new_active =
        subst (λ i. HasCredential s.ddns_credentials i r.device_id CredentialStatus.active) same
          new_active' in
      let (q, q_found, _) =
        find-credential_where s.ddns_credentials _ _ _ v.credentials_ascending new_active in
      first_or-Ensures db ddns_credentials_table _ _ _ s
        (λ absent. none-ne-some q (sym absent ∙ q_found))
        λ c _. update_where-Ensures db ddns_credentials_table _ _ _ _ (
          update_where-Ensures db ddns_credentials_table _ _ _ _ (
            one_row-Ensures _ _ _
              (count-credential_where _ _ _ _
                (used-Ascending s v now credential_id r _ at st new apart new_active previous)
                (used_previous s v now credential_id r _ at st new apart new_active previous))
              (update_where-Ensures db rotations_table _ _ _ _ (
                Ensures-pure true _ (
                  graced-IsSound s v now credential_id r _ at st new apart new_active previous,
                  (
                    r,
                    h,
                    at_moved s r (to_grace now (add_minutes now r.grace_minutes)) r.id refl at
                        (λ y. refl),
                    graced_replacement s v now credential_id r _ at st new apart new_active
                        previous,
                    graced_previous s v now credential_id r _ at st new apart new_active previous,
                  ),
                )))))

  pub confirm_credential_use_Sound :
      Atomic
        (Confirmed s credential_id now)
        (λ e. ⊥)
        (confirm_credential_use db credential_id now)
        s
  unfolding confirm_credential_use confirm_credential_use_tx
  confirm_credential_use_Sound =
      transaction-Atomic db _ s
        (first?-Ensures db rotations_table _ _ s (confirm_rotation-Ensures _ refl))
