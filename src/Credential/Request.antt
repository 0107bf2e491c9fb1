-- ===== src/Credential/Request.antt =====
-- RequestRotation, from a sound state.
use olimpo.Common.{
  ℕ, ◌<◌, ◌≤◌, ◌≡◌, refl, sym, ◌∙◌, ap, ◌≢◌, ◌⊎◌, inl, inr, Bool, true, false, not, ◌&&◌, ◌||◌,
  none, some, arith, ◌==◌, nat_eq, find, List, [], ◌∷◌, ◌++◌, All, count, select, length, ℤ, ltb_ℤ,
  find-select, find-count_zero, take_2-nil, take_2-single, take_2-pair, append-Ascending,
  find-append_inv, find-append, find_holds, find-by_id, nat_beq_iff, nat_beq, take,
}
use mathlib.Core.List.{reverse}
use olimpo.Errors.{
  CredentialError, no_active_credential, multiple_active, rotation_in_progress,
  invalid_grace_period, Refusal, credential,
}
use olimpo.Gorm.{Gorm}
use olimpo.Gorm.Rules.{
  Ensures, Atomic, Ensures-if, Ensures-refuse, Ensures-bind, Atomic-if, Atomic-refuse,
  transaction-Atomic, Ensures-pure,
}
use olimpo.Gorm.Statements.{
  first_or-Ensures, count_rows-Ensures, newest_rows-Ensures, create_row-Ensures_last,
}
use olimpo.Model.{
  Database, DdnsCredential, DdnsCredentialRotation, CredentialStatus, RotationStatus,
  rotation_status_eq, credential_status_eq, devices_table, ddns_credentials_table, rotations_table,
}
use olimpo.Credential.Base.{is_open, active_device, min_grace_minutes, max_grace_minutes}
use olimpo.Credential.Advance.{request_rotation_tx, request_rotation, only_active}
use olimpo.Credential.Invariant.{rotation_at, HasCredential, IsSound}

abbrev pub open_of : ℕ → DdnsCredentialRotation → Bool
open_of device_id r = r.device_id == device_id && is_open r.status

abbrev pub active_of : ℕ → DdnsCredential → Bool
active_of device_id c = c.device_id == device_id && c.status == CredentialStatus.active

-- Why a request is refused.
abbrev pub NotRequestable : Database → ℕ → ℤ → Refusal → Type 0
NotRequestable s d g e =
    ((e ≡ credential invalid_grace_period)
      × ((ltb_ℤ g min_grace_minutes || ltb_ℤ max_grace_minutes g) ≡ true))
    ⊎ ((e ≡ credential CredentialError.device_not_found)
        × (find (active_device d) s.devices ≡ none))
    ⊎ ((e ≡ credential rotation_in_progress) × (count (open_of d) s.rotations ≢ 0))
    ⊎ ((e ≡ credential no_active_credential)
        × (length (select (active_of d) s.ddns_credentials) ≡ 0))
    ⊎ ((e ≡ credential multiple_active) × (2 ≤ length (select (active_of d) s.ddns_credentials)))

-- What a request makes of a database: a row more.
abbrev pub Requested : Database → ℕ → ℤ → DdnsCredentialRotation → Database → Type 0
Requested s d g r s' =
    IsSound s'
    × (rotation_at r.id s'.rotations ≡ some r)
    × (r.status ≡ RotationStatus.requested)
    × (r.device_id ≡ d)
    × (r.grace_minutes ≡ g)
    × HasCredential s.ddns_credentials r.previous_credential_id d CredentialStatus.active
    × (s'.ddns_credentials ≡ s.ddns_credentials)

module _ (s : Database) (v : IsSound s) (r : DdnsCredentialRotation)
    (status : r.status ≡ RotationStatus.requested) (new : r.new_credential_id ≡ none)
    (above : All (λ x. x.id < r.id) s.rotations)
    (alone : count (open_of r.device_id) s.rotations ≡ 0)
    (previous : HasCredential s.ddns_credentials r.previous_credential_id r.device_id
      CredentialStatus.active) where
  none_open :
      (j : ℕ) (q : DdnsCredentialRotation)
      → rotation_at j s.rotations ≡ some q
      → is_open q.status ≡ true
      → r.device_id ≡ q.device_id
      → ⊥
  none_open j q at o same =
      let shut : open_of r.device_id q ≡ false =
        find-count_zero (open_of r.device_id) _ s.rotations q alone at in
      ground (arith, nat_beq_iff q.device_id r.device_id)

  pub appended-IsSound : IsSound (record s { rotations = s.rotations ++ r ∷ [] })
  appended-IsSound = record {
    credentials_ascending = v.credentials_ascending;
    rotations_ascending = append-Ascending (λ x. x.id) s.rotations r v.rotations_ascending above;
    supported = λ i q h. elim (find-append_inv (λ x. x.id) i s.rotations r q h) [
      | inl e ↦ rw (e, status) (new, previous)
      | inr old ↦ v.supported i q old
    ];
    one_open = λ i j p q hp hq op oq same. elim (find-append_inv (λ x. x.id) i s.rotations r p hp) [
      | inl ep ↦ elim (find-append_inv (λ x. x.id) j s.rotations r q hq) [
        | inl eq ↦
            let pi : nat_beq p.id i ≡ true = find_holds _ (s.rotations ++ r ∷ []) p hp in
            let qj : nat_beq q.id j ≡ true = find_holds _ (s.rotations ++ r ∷ []) q hq in
            ground (
              arith,
              ap (λ (z : DdnsCredentialRotation). z.id) ep,
              ap (λ (z : DdnsCredentialRotation). z.id) eq,
            )
        | inr oldq ↦ absurd (
            none_open j q oldq oq
              (sym (ap (λ (z : DdnsCredentialRotation). z.device_id) ep) ∙ same))
      ]
      | inr oldp ↦ elim (find-append_inv (λ x. x.id) j s.rotations r q hq) [
        | inl eq ↦ absurd (
            none_open i p oldp op
              (sym (ap (λ (z : DdnsCredentialRotation). z.device_id) eq) ∙ sym same))
        | inr oldq ↦ v.one_open i j p q oldp oldq op oq same
      ]
    ];
  }

  appended_at : rotation_at r.id (s.rotations ++ r ∷ []) ≡ some r
  appended_at =
      find-append (λ x. x.id) r.id s.rotations r above ∙ rw ((nat_beq_iff r.id r.id).1 refl) refl

is_zero : (n : ℕ) → not (n == 0) ≡ false → n ≡ 0
is_zero n h = ground arith

not_zero : (n : ℕ) → not (n == 0) ≡ true → n ≢ 0
not_zero n h = ground arith

-- The active credential that the selection yields.
selected-HasCredential :
    (s : Database) (v : IsSound s) (d : ℕ) (c : DdnsCredential)
    → select (active_of d) s.ddns_credentials ≡ c ∷ []
    → HasCredential s.ddns_credentials c.id d CredentialStatus.active
selected-HasCredential s v d c h =
    let e : find (active_of d) s.ddns_credentials ≡ some c =
      find-select _ s.ddns_credentials c [] h in
    let t : active_of d c ≡ true = find_holds _ s.ddns_credentials c e in
    (
      c,
      find-by_id (λ x. x.id) _ s.ddns_credentials c v.credentials_ascending e,
      ground arith,
      ground (arith, credential_status_eq.agrees c.status CredentialStatus.active),
    )

module _ (s : Database) (d : ℕ) (g : ℤ) where
  only_active-Ensures :
      (cs : List DdnsCredential)
      → take 2 (reverse (select (active_of d) s.ddns_credentials)) ≡ cs
      → Ensures
          (λ c s'. (s' ≡ s) × (select (active_of d) s.ddns_credentials ≡ c ∷ []))
          (NotRequestable s d g)
          (only_active cs)
          s
  unfolding only_active
  only_active-Ensures [] h = Ensures-refuse _ s (inr (inr (inr (inl (refl, take_2-nil _ h)))))
  only_active-Ensures (c ∷ []) h = Ensures-pure c s (refl, take_2-single _ c h)
  only_active-Ensures (c ∷ e ∷ rest) h =
      Ensures-refuse _ s (inr (inr (inr (inr (refl, take_2-pair _ c e rest h)))))

module _ (db : Gorm) (s : Database) (v : IsSound s) (d : ℕ) (g : ℤ) (now : ℕ) where
  pub request_rotation_Sound :
      Atomic (Requested s d g) (NotRequestable s d g) (request_rotation db d g now) s
  unfolding request_rotation request_rotation_tx
  request_rotation_Sound =
      Atomic-if _ _ _ s (λ bad. Atomic-refuse _ s (inl (refl, bad)))
        λ good. transaction-Atomic db _ s (
          first_or-Ensures db devices_table _ _ _ s (λ h. inr (inl (refl, h)))
            λ device _. count_rows-Ensures db rotations_table _ _ s (
              Ensures-if _ _ _ s (λ t. Ensures-refuse _ s (inr (inr (inl (refl, not_zero _ t)))))
                λ t. newest_rows-Ensures db ddns_credentials_table _ _ _ s (
                  Ensures-bind _ _ _ s (only_active-Ensures s d g _ refl) λ c s' h. rw h.0 (
                    create_row-Ensures_last db rotations_table _ s λ n at _ above.
                      let previous = selected-HasCredential s v d c h.1 in
                      (
                        appended-IsSound s v _ refl refl above (is_zero _ t) previous,
                        appended_at s v _ refl refl above (is_zero _ t) previous,
                        refl,
                        refl,
                        refl,
                        previous,
                        refl,
                      )))))
