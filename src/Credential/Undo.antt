-- ===== src/Credential/Undo.antt =====
-- Rollback, from a sound state.
use mathlib.Core.Option.{none-ne-some, some-injective}
use olimpo.Common.{
  arith, ℕ, ◌≡◌, refl, sym, ap, ◌∙◌, ◌≢◌, ◌⊎◌, inl, inr, true, false, none, some, nat_eq, find,
  subst, List, Text, Ascending,
}
use olimpo.Errors.{rotation_not_found, invalid_rotation_state, Refusal, credential}
use olimpo.Gorm.{Gorm}
use olimpo.Gorm.Rules.{
  Ensures, Atomic, Ensures-if, Ensures-pure, Ensures-refuse, Ensures-bind, transaction-Atomic,
}
use olimpo.Gorm.Statements.{first_or-Ensures, update_where-Ensures}
use olimpo.Model.{
  Database, DdnsCredential, DdnsCredentialRotation, CredentialStatus, RotationStatus,
  rotation_status_eq, ddns_credentials_table, rotations_table,
}
use olimpo.Credential.Base.{revoke, leave_grace, to_rolled_back, is_open}
use olimpo.Credential.Advance.{load_rotation}
use olimpo.Credential.Finish.{not_after, revoke_replacement, undo, rollback_tx, rollback}
use olimpo.Credential.Invariant.{
  rotation_at, HasCredential, Supported, IsSound, move-IsSound, Frame,
}
use olimpo.Credential.Changes.{
  changed, changed-Ascending, changed-Frame, changed_other, changed_hit, HasCredential-count,
  HasCredential-ne, count-credential_where, at_moved,
}
use olimpo.Credential.Steps.{rotation_of, loaded, deref-Ensures, one_row-Ensures}

-- The rotation has ended, or its grace period has.
abbrev pub IsPast : ℕ → DdnsCredentialRotation → Type 0
IsPast now r =
    (is_open r.status ≡ false)
    ⊎ ((r.status ≡ RotationStatus.grace) × (not_after r.grace_until now ≡ true))

-- It can still be rolled back.
abbrev pub IsLive : ℕ → DdnsCredentialRotation → Type 0
IsLive now r = (is_open r.status ≡ true) × (¬ IsPast now r)

live :
    (now : ℕ) (r : DdnsCredentialRotation)
    → is_open r.status ≡ true
    → (r.status ≡ RotationStatus.grace → not_after r.grace_until now ≡ false)
    → IsLive now r
live now r running early = (
  running,
  λ h. elim h [
    | inl e ↦ ground arith
    | inr p ↦ let off = early p.0 in let late = p.1 in ground arith
  ],
)

abbrev pub NotReversible : Database → ℕ → ℕ → ℕ → Refusal → Type 0
NotReversible s rotation_id device_id now e =
    ((e ≡ credential rotation_not_found)
      × (find (rotation_of rotation_id device_id) s.rotations ≡ none))
    ⊎ ((r : DdnsCredentialRotation) × (e ≡ credential invalid_rotation_state)
        × (find (rotation_of rotation_id device_id) s.rotations ≡ some r)
        × IsPast now r)

-- The credential that the rotation was to replace is active, and its replacement is revoked.
abbrev pub Restored : DdnsCredentialRotation → ℕ → List DdnsCredential → Type 0
Restored r d cs =
    HasCredential cs r.previous_credential_id d CredentialStatus.active
    × ((n : ℕ) → r.new_credential_id ≡ some n → HasCredential cs n d CredentialStatus.revoked)

-- The rotation is as before, but for its status, the time and the reason.
abbrev pub IsRolledBack : ℕ → Text → DdnsCredentialRotation → DdnsCredentialRotation → Type 0
IsRolledBack later reason r r' =
    (r'.status ≡ RotationStatus.rolled_back)
    × (r'.last_error ≡ reason)
    × (r'.rolled_back_at ≡ some later)
    × (r'.id ≡ r.id)
    × (r'.device_id ≡ r.device_id)
    × (r'.previous_credential_id ≡ r.previous_credential_id)
    × (r'.new_credential_id ≡ r.new_credential_id)

abbrev pub RolledBack : Database → ℕ → ℕ → Text → ℕ → ℕ → Unit {0} → Database → Type 0
RolledBack s rotation_id device_id reason now later u s' =
    IsSound s'
    × ((r : DdnsCredentialRotation) × (r' : DdnsCredentialRotation) × (find
            (rotation_of rotation_id device_id) s.rotations
          ≡ some r)
        × (¬ IsPast now r)
        × (rotation_at rotation_id s'.rotations ≡ some r')
        × IsRolledBack later reason r r'
        × Restored r device_id s'.ddns_credentials)

-- The database after the `switch`.
abbrev Undone : Database → DdnsCredentialRotation → ℕ → ℕ → Unit {0} → Database → Type 0
Undone s r d now u s' =
    (cs : List DdnsCredential) × IsLive now r
    × (s' ≡ record s { ddns_credentials = cs })
    × Ascending (λ c. c.id) cs
    × Frame d s.ddns_credentials cs
    × Restored r d cs

module _ (cs : List DdnsCredential) (asc : Ascending (λ c. c.id) cs) (r : DdnsCredentialRotation)
    (n d : ℕ) (status : CredentialStatus) (now : ℕ) (new : r.new_credential_id ≡ some n)
    (apart : n ≢ r.previous_credential_id) (replacement : HasCredential cs n d status)
    (previous : HasCredential cs r.previous_credential_id d CredentialStatus.active) where
  revoked-Restored : Restored r d (changed cs n d status (revoke now))
  revoked-Restored =
      let (c, _, dev, _, after) =
        changed_hit cs n d status (revoke now) (λ c. refl) asc
          (HasCredential-count cs _ _ _ asc replacement) in
      (
        changed_other cs n d status (revoke now) (λ c. refl) _ _ _ (λ e. apart (sym e)) previous,
        λ m e.
            subst
              (λ i. HasCredential (changed cs n d status (revoke now)) i d CredentialStatus.revoked)
              (some-injective n m (sym new ∙ e)) (revoke now c, after, dev, refl),
      )

module _ (db : Gorm) {B : Refusal → Type 0} (s : Database) (r : DdnsCredentialRotation) (d now : ℕ)
    (asc : Ascending (λ c. c.id) s.ddns_credentials) where
  revoke_replacement-Ensures :
      (s₀ : Database) (n : ℕ) (status : CredentialStatus)
      → IsLive now r
      → s ≡ record s₀ { ddns_credentials = s.ddns_credentials }
      → Frame d s₀.ddns_credentials s.ddns_credentials
      → r.new_credential_id ≡ some n
      → n ≢ r.previous_credential_id
      → HasCredential s.ddns_credentials n d status
      → HasCredential s.ddns_credentials r.previous_credential_id d CredentialStatus.active
      → Ensures (Undone s₀ r d now) B (revoke_replacement db n d status now) s
  unfolding revoke_replacement
  revoke_replacement-Ensures s₀ n status running same frame new apart replacement previous =
      update_where-Ensures db ddns_credentials_table _ _ _ s (
        one_row-Ensures _ _ _ (count-credential_where s.ddns_credentials n d status asc replacement)
          (Ensures-pure tt _ (
            changed s.ddns_credentials n d status (revoke now),
            running,
            ap
                (λ (t : Database). record t {
                  ddns_credentials = changed s.ddns_credentials n d status (revoke now);
                })
                same,
            changed-Ascending s.ddns_credentials _ _ _ (revoke now) (λ c. refl) asc,
            (λ i e st ne h.
                changed-Frame s.ddns_credentials n d status (revoke now) (λ c. refl) i e st ne
                  (frame i e st ne h)),
            revoked-Restored s.ddns_credentials asc r n d status now new apart replacement previous,
          )))

module _ (db : Gorm) (s : Database) (v : IsSound s) (r : DdnsCredentialRotation)
    (rotation_id d now : ℕ) (found : find (rotation_of rotation_id d) s.rotations ≡ some r)
    (dev : r.device_id ≡ d) (at : rotation_at r.id s.rotations ≡ some r) where
  abbrev Undoes : RotationStatus → Type 0
  Undoes status =
      Ensures (Undone s r d now) (NotReversible s rotation_id d now) (undo db r status d now) s

  past : IsPast now r → NotReversible s rotation_id d now (credential invalid_rotation_state)
  past h = inr (r, refl, found, h)

  here : {status : RotationStatus} → r.status ≡ status → Supported s.ddns_credentials r status
  here st = subst (Supported s.ddns_credentials r) st (v.supported r.id r at)

  owned :
      (i : ℕ) (status : CredentialStatus)
      → HasCredential s.ddns_credentials i r.device_id status
      → HasCredential s.ddns_credentials i d status
  owned i status h = subst (λ e. HasCredential s.ddns_credentials i e status) dev h

  later :
      {status : RotationStatus}
      → r.status ≡ status
      → status ≢ RotationStatus.grace
      → r.status ≢ RotationStatus.grace
  later st ne g = ne (sym st ∙ g)

  undo-grace : r.status ≡ RotationStatus.grace → Undoes RotationStatus.grace
  unfolding undo
  undo-grace st =
      let (n, t, new, _, active, grace) = here st in
      let cs = s.ddns_credentials in
      let p = r.previous_credential_id in
      let asc = v.credentials_ascending in
      let apart : n ≢ p = HasCredential-ne cs _ _ _ _ _ _ (λ e. cc) active grace in
      let (c, _, c_dev, _, after) =
        changed_hit cs p d CredentialStatus.grace leave_grace (λ c. refl) asc
          (HasCredential-count cs _ _ _ asc (owned _ _ grace)) in
      deref-Ensures r.new_credential_id n _ s new (
        Ensures-if _ _ _ s (λ late. Ensures-refuse _ s (past (inr (st, late))))
          λ early. update_where-Ensures db ddns_credentials_table _ _ _ s (
            one_row-Ensures _ _ _
              (count-credential_where cs p d CredentialStatus.grace asc (owned _ _ grace))
              (revoke_replacement-Ensures db _ r d now
                (changed-Ascending cs p d CredentialStatus.grace leave_grace (λ c. refl) asc) s n
                CredentialStatus.active (live now r (rw st refl) (λ _. early)) refl
                (changed-Frame cs p d CredentialStatus.grace leave_grace (λ c. refl)) new apart
                (changed_other cs p d CredentialStatus.grace leave_grace (λ c. refl) n d
                  CredentialStatus.active apart (owned _ _ active))
                (leave_grace c, after, c_dev, refl))))

  undo-Ensures : (status : RotationStatus) → r.status ≡ status → Undoes status
  unfolding undo
  undo-Ensures RotationStatus.requested st =
      let (new, previous) = here st in
      Ensures-pure tt s (
        s.ddns_credentials,
        live now r (rw st refl) (λ g. absurd (later st (λ e. cc) g)),
        refl,
        v.credentials_ascending,
        (λ i e status ne h. h),
        (owned _ _ previous, λ n e. absurd (none-ne-some n (sym new ∙ e))),
      )
  undo-Ensures RotationStatus.staged st =
      let (n, new, pending, previous) = here st in
      deref-Ensures r.new_credential_id n _ s new (
        revoke_replacement-Ensures db s r d now v.credentials_ascending s n CredentialStatus.pending
          (live now r (rw st refl) (λ g. absurd (later st (λ e. cc) g))) refl (λ i e status ne h. h)
          new (HasCredential-ne s.ddns_credentials _ _ _ _ _ _ (λ e. cc) pending previous)
          (owned _ _ pending) (owned _ _ previous))
  undo-Ensures RotationStatus.validating st =
      let (n, new, apart, active, previous) = here st in
      deref-Ensures r.new_credential_id n _ s new (
        revoke_replacement-Ensures db s r d now v.credentials_ascending s n CredentialStatus.active
          (live now r (rw st refl) (λ g. absurd (later st (λ e. cc) g))) refl (λ i e status ne h. h)
          new apart (owned _ _ active) (owned _ _ previous))
  undo-Ensures RotationStatus.grace st = undo-grace st
  undo-Ensures RotationStatus.completed st = Ensures-refuse _ s (past (inl (rw st refl)))
  undo-Ensures RotationStatus.rolled_back st = Ensures-refuse _ s (past (inl (rw st refl)))

module _ (db : Gorm) (s : Database) (v : IsSound s) (rotation_id device_id : ℕ) (reason : Text)
    (now later : ℕ) where
  -- From a sound database, a rollback that succeeds restores the credential that the rotation was to
  -- replace to active, leaves the replacement revoked, if there is one, and records the rotation as
  -- rolled back with the time and the given reason; the database stays sound. The service refuses it
  -- exactly where the device has no such rotation, the rotation has ended, or its grace period is over. Whatever fails, the database
  -- is as before.
  pub rollback_Sound :
      Atomic
        (RolledBack s rotation_id device_id reason now later)
        (NotReversible s rotation_id device_id now)
        (rollback db rotation_id device_id reason now later)
        s
  unfolding rollback rollback_tx load_rotation
  rollback_Sound = transaction-Atomic db _ s (
      first_or-Ensures db rotations_table _ _ _ s (λ h. inl (refl, h))
        λ r h.
          let (own, dev, at) = loaded s v rotation_id device_id r h in
          Ensures-bind _ _ _ s
            (undo-Ensures db s v r rotation_id device_id now h dev at r.status refl)
            λ u s' (cs, running, same, asc, frame, restored). rw same (
              update_where-Ensures db rotations_table _ _ _ _ (
                Ensures-pure tt _ (
                  move-IsSound s v r cs (to_rolled_back later reason) at running.0 asc
                      (subst (λ e. Frame e s.ddns_credentials cs) (sym dev) frame) (λ x. refl)
                      (λ x. refl) tt,
                  (
                    r,
                    to_rolled_back later reason r,
                    h,
                    running.1,
                    at_moved s r (to_rolled_back later reason) rotation_id own at (λ y. refl),
                    (refl, refl, refl, refl, refl, refl, refl),
                    restored,
                  ),
                ))))
