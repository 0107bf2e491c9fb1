-- ===== src/Credential/Invariant.antt =====
-- The invariant of the credential tables: every open rotation has the credentials that its status
-- promises, a device has at most one open rotation, and primary keys are unique.
use mathlib.Core.Option.{some-injective}
use olimpo.Common.{
  ℕ, ◌≡◌, refl, sym, ◌∙◌, ap, ◌≢◌, ◌⊎◌, inl, inr, true, false, Option, none, some, List, arith,
  ◌==◌, nat_eq, nat_beq, Bool-cases, find, update_rows, by_id, Ascending, find_holds,
  find-update_inv, update_rows-Ascending,
}
use olimpo.Model.{
  Database, DdnsCredential, DdnsCredentialRotation, CredentialStatus, RotationStatus,
}
use olimpo.Credential.Base.{is_open}

abbrev pub credential_at : ℕ → List DdnsCredential → Option DdnsCredential
credential_at i = find (by_id (λ c. c.id) i)

abbrev pub rotation_at : ℕ → List DdnsCredentialRotation → Option DdnsCredentialRotation
rotation_at i = find (by_id (λ r. r.id) i)

-- The credential of that key belongs to the device and has the status.
abbrev pub HasCredential : List DdnsCredential → ℕ → ℕ → CredentialStatus → Type 0
HasCredential cs i d status =
    (c : DdnsCredential) × (credential_at i cs ≡ some c) × (c.device_id ≡ d) × (c.status ≡ status)

-- What a rotation of each status stands on.
abbrev pub Supported : List DdnsCredential → DdnsCredentialRotation → RotationStatus → Type 0
Supported cs r RotationStatus.requested =
    (r.new_credential_id ≡ none)
    × HasCredential cs r.previous_credential_id r.device_id CredentialStatus.active
Supported cs r RotationStatus.staged =
    (n : ℕ) × (r.new_credential_id ≡ some n)
    × HasCredential cs n r.device_id CredentialStatus.pending
    × HasCredential cs r.previous_credential_id r.device_id CredentialStatus.active
Supported cs r RotationStatus.validating =
    (n : ℕ) × (r.new_credential_id ≡ some n)
    × (n ≢ r.previous_credential_id)
    × HasCredential cs n r.device_id CredentialStatus.active
    × HasCredential cs r.previous_credential_id r.device_id CredentialStatus.active
Supported cs r RotationStatus.grace =
    (n : ℕ) × (t : ℕ) × (r.new_credential_id ≡ some n)
    × (r.grace_until ≡ some t)
    × HasCredential cs n r.device_id CredentialStatus.active
    × HasCredential cs r.previous_credential_id r.device_id CredentialStatus.grace
Supported cs r _ = Unit

pub record IsSound (s : Database) : Type 0 where
  pub credentials_ascending : Ascending (λ c. c.id) s.ddns_credentials
  pub rotations_ascending : Ascending (λ r. r.id) s.rotations
  pub supported :
      (i : ℕ) (r : DdnsCredentialRotation)
      → rotation_at i s.rotations ≡ some r
      → Supported s.ddns_credentials r r.status
  pub one_open :
      (i j : ℕ) (r q : DdnsCredentialRotation)
      → rotation_at i s.rotations ≡ some r
      → rotation_at j s.rotations ≡ some q
      → is_open r.status ≡ true
      → is_open q.status ≡ true
      → r.device_id ≡ q.device_id
      → i ≡ j

-- The credentials of other devices keep their statuses.
abbrev pub Frame : ℕ → List DdnsCredential → List DdnsCredential → Type 0
Frame d cs cs' =
    (i e : ℕ) (status : CredentialStatus)
    → e ≢ d
    → HasCredential cs i e status
    → HasCredential cs' i e status

module _ (cs cs' : List DdnsCredential) (d : ℕ) (frame : Frame d cs cs') where
  Supported-Frame :
      (r : DdnsCredentialRotation) (status : RotationStatus)
      → r.device_id ≢ d
      → Supported cs r status
      → Supported cs' r status
  Supported-Frame r RotationStatus.requested ne (a, h) = (a, frame _ _ _ ne h)
  Supported-Frame r RotationStatus.staged ne (n, a, h, k) =
      (n, a, frame _ _ _ ne h, frame _ _ _ ne k)
  Supported-Frame r RotationStatus.validating ne (n, a, b, h, k) =
      (n, a, b, frame _ _ _ ne h, frame _ _ _ ne k)
  Supported-Frame r RotationStatus.grace ne (n, t, a, b, h, k) =
      (n, t, a, b, frame _ _ _ ne h, frame _ _ _ ne k)
  Supported-Frame r _ ne h = h

-- The rotations after an update of one of them.
abbrev pub moved :
    Database
    → DdnsCredentialRotation
    → (DdnsCredentialRotation → DdnsCredentialRotation)
    → List DdnsCredentialRotation
moved s r f = update_rows (λ x. x.id == r.id) f s.rotations

-- One open rotation moves on, and only the credentials of its device change.
module _ (s : Database) (v : IsSound s) (r : DdnsCredentialRotation) (cs' : List DdnsCredential)
    (f : DdnsCredentialRotation → DdnsCredentialRotation)
    (at : rotation_at r.id s.rotations ≡ some r) (open_before : is_open r.status ≡ true)
    (ascending : Ascending (λ c. c.id) cs') (frame : Frame r.device_id s.ddns_credentials cs')
    (same_id : (x : DdnsCredentialRotation) → (f x).id ≡ x.id)
    (same_device : (x : DdnsCredentialRotation) → (f x).device_id ≡ x.device_id)
    (supported_after : Supported cs' (f r) (f r).status) where
  -- A row after the move is the moved rotation, or an old row of another key.
  moved_cases :
      (i : ℕ) (q : DdnsCredentialRotation)
      → rotation_at i (moved s r f) ≡ some q
      → ((i ≡ r.id) × (q ≡ f r)) ⊎ ((i ≢ r.id) × (rotation_at i s.rotations ≡ some q))
  moved_cases i q h =
      let (x, e, y) = find-update_inv (λ x. x.id) (λ x. x.id == r.id) f s.rotations same_id i q h in
      let own : nat_beq x.id i ≡ true = find_holds _ s.rotations x e in
      elim (Bool-cases (x.id == r.id)) [
        | inl t ↦
            let same : i ≡ r.id = ground arith in
            let here : x ≡ r = some-injective x r (sym e ∙ rw same at) in
            inl (same, y ∙ rw t (ap f here))
        | inr t ↦ inr (ground arith, e ∙ ap some (sym (y ∙ rw t refl)))
      ]

  other_device :
      (i : ℕ) (q : DdnsCredentialRotation)
      → i ≢ r.id
      → rotation_at i s.rotations ≡ some q
      → is_open q.status ≡ true
      → q.device_id ≢ r.device_id
  other_device i q ne e o same = ne (v.one_open i r.id q r e at o open_before same)

  closed_Supported :
      (cs : List DdnsCredential) (q : DdnsCredentialRotation) (status : RotationStatus)
      → is_open status ≡ false
      → Supported cs q status
  closed_Supported cs q RotationStatus.completed h = tt
  closed_Supported cs q RotationStatus.rolled_back h = tt
  closed_Supported cs q _ h = absurd (cc)

  pub move-IsSound : IsSound (record s { ddns_credentials = cs'; rotations = moved s r f })
  move-IsSound = record {
    credentials_ascending = ascending;
    rotations_ascending =
        update_rows-Ascending (λ x. x.id) _ f s.rotations same_id v.rotations_ascending;
    supported = λ i q h. elim (moved_cases i q h) [
      | inl (e, p) ↦ rw p supported_after
      | inr (ne, e) ↦ elim (Bool-cases (is_open q.status)) [
        | inl o ↦
            Supported-Frame s.ddns_credentials cs' r.device_id frame q q.status
              (other_device i q ne e o) (v.supported i q e)
        | inr c ↦ closed_Supported cs' q q.status c
      ]
    ];
    one_open = λ i j p q hp hq op oq same. elim (moved_cases i p hp) [
      | inl (ei, ep) ↦ elim (moved_cases j q hq) [
        | inl (ej, eq) ↦ ei ∙ sym ej
        | inr (nj, ej) ↦ absurd (
            other_device j q nj ej oq
              (sym same ∙ ap (λ (z : DdnsCredentialRotation). z.device_id) ep ∙ same_device r))
      ]
      | inr (ni, ei) ↦ elim (moved_cases j q hq) [
        | inl (ej, eq) ↦ absurd (
            other_device i p ni ei op
              (same ∙ ap (λ (z : DdnsCredentialRotation). z.device_id) eq ∙ same_device r))
        | inr (nj, ej) ↦ v.one_open i j p q ei ej op oq same
      ]
    ];
  }
