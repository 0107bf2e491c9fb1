-- ===== src/Credential/Reconcile.antt =====
-- ReconcileExpiredGrace, from a sound state.
use mathlib.Core.Option
use mathlib.Core.Option.{some-injective, none-ne-some}
use olimpo.Common.{
  ◌≢◌, List, ℕ, ◌≡◌, refl, sym, ap, ap₂, ◌∙◌, Bool, true, false, ◌&&◌, Option, none, some, arith,
  ◌==◌, nat_eq, find, subst, find_holds, find-by_id, find-update_rows, find-none, if◌then◌else◌,
  nat_beq, nat_beq_iff,
}
use olimpo.Gorm.{Gorm}
use olimpo.Gorm.Rules.{Ensures, Atomic, Ensures-if, Ensures-pure, transaction-Atomic}
use olimpo.Gorm.Statements.{first?-Ensures, update_where-Ensures}
use olimpo.Model.{
  Database, DdnsCredential, DdnsCredentialRotation, CredentialStatus, RotationStatus,
  rotation_status_eq, ddns_credentials_table, rotations_table,
}
use olimpo.Credential.Base.{revoke, to_completed}
use olimpo.Credential.Finish.{expired_by, still_running, complete_rotation, complete_rotation_tx}
use olimpo.Credential.Invariant.{
  HasCredential, rotation_at, Supported, IsSound, moved, move-IsSound,
}
use olimpo.Credential.Changes.{
  changed, changed_hit, changed_other, HasCredential-count, HasCredential-ne, changed-Ascending,
  changed-Frame, count-credential_where,
}
use olimpo.Credential.Steps.{one_row-Ensures}

-- The grace of the rotation has ended.
abbrev pub is_due : ℕ → DdnsCredentialRotation → Bool
is_due now r = r.status == RotationStatus.grace && expired_by r.grace_until now

-- What completing does to a rotation.
abbrev pub complete_due : ℕ → Bool → DdnsCredentialRotation → DdnsCredentialRotation
complete_due now here r = if here && is_due now r then to_completed now r else r

-- The due rotations among some keys are completed, and no other rotation changes.
abbrev pub CompletesDue : ℕ → (ℕ → Bool) → Database → Database → Type 0
CompletesDue now here s s' =
    (i : ℕ)
    → rotation_at i s'.rotations
      ≡ Option.map (complete_due now (here i)) (rotation_at i s.rotations)

-- A credential that is not in grace keeps its status.
abbrev pub KeepsCredentials : Database → Database → Type 0
KeepsCredentials s s' =
    (i d : ℕ) (status : CredentialStatus)
    → status ≢ CredentialStatus.grace
    → HasCredential s.ddns_credentials i d status
    → HasCredential s'.ddns_credentials i d status

-- The credentials that the due rotations among some keys replaced are revoked.
abbrev pub RevokesDue : ℕ → (ℕ → Bool) → Database → Database → Type 0
RevokesDue now here s s' =
    (i : ℕ) (r : DdnsCredentialRotation)
    → rotation_at i s.rotations ≡ some r
    → here i ≡ true
    → is_due now r ≡ true
    → HasCredential s'.ddns_credentials r.previous_credential_id r.device_id
        CredentialStatus.revoked

pub not_due :
    (now : ℕ) (here : Bool) (r : DdnsCredentialRotation)
    → (here ≡ true → is_due now r ≡ false)
    → complete_due now here r ≡ r
not_due now true r h = rw (h refl) refl
not_due now false r h = refl

same_change :
    (now : ℕ) (x : DdnsCredentialRotation) (b c : Bool)
    → b ≡ c
    → (c ≡ true → is_due now x ≡ true)
    → (if b then to_completed now x else x) ≡ complete_due now c x
same_change now x true true e h = rw (h refl) refl
same_change now x false false e h = refl
same_change now x true false e h = cc
same_change now x false true e h = cc

module _ (s : Database) (now key : ℕ) where
  stays :
      ((r : DdnsCredentialRotation) → rotation_at key s.rotations ≡ some r → is_due now r ≡ false)
      → CompletesDue now (λ i. i == key) s s
  stays h i = go (rotation_at i s.rotations) refl
    where
      go :
          (o : Option DdnsCredentialRotation)
          → rotation_at i s.rotations ≡ o
          → o ≡ Option.map (complete_due now (i == key)) o
      go none e = refl
      go (some r) e = ap some (
          sym (
            not_due now (i == key) r
              λ t. h r (subst (λ k. rotation_at k s.rotations ≡ some r) (ground arith) e)))

  moves :
      (r : DdnsCredentialRotation)
      → rotation_at key s.rotations ≡ some r
      → r.id ≡ key
      → is_due now r ≡ true
      → (i : ℕ)
      → rotation_at i (moved s r (to_completed now))
        ≡ Option.map (complete_due now (i == key)) (rotation_at i s.rotations)
  moves r at own due i =
      find-update_rows (λ x. x.id) (λ x. x.id == r.id) (to_completed now) i s.rotations (λ x. refl)
      ∙ go (rotation_at i s.rotations) refl
    where
      go :
          (o : Option DdnsCredentialRotation)
          → rotation_at i s.rotations ≡ o
          → Option.map (λ x. if x.id == r.id then to_completed now x else x) o
            ≡ Option.map (complete_due now (i == key)) o
      go none e = refl
      go (some x) e =
          let x_own : x.id ≡ i = (nat_beq_iff x.id i).0 (find_holds _ s.rotations x e) in
          ap some (
            same_change now x _ _ (ap₂ nat_beq x_own own) λ t.
              let same : i ≡ key = (nat_beq_iff i key).0 t in
              let here : r ≡ x =
                some-injective r x
                  (sym at ∙ subst (λ k. rotation_at k s.rotations ≡ some x) same e) in
              subst (λ y. is_due now y ≡ true) here due)

is_due_status :
    (now : ℕ) (r : DdnsCredentialRotation) → is_due now r ≡ true → r.status ≡ RotationStatus.grace
is_due_status now r h = ground (arith, rotation_status_eq.agrees r.status RotationStatus.grace)

-- The selected rotation is the one of its key.
selected :
    (s : Database) (v : IsSound s) (key : ℕ) (r : DdnsCredentialRotation)
    → find (λ x. x.id == key && x.status == RotationStatus.grace) s.rotations ≡ some r
    → (r.id ≡ key) × (r.status ≡ RotationStatus.grace) × (rotation_at r.id s.rotations ≡ some r)
selected s v key r h =
    let t : (r.id == key && r.status == RotationStatus.grace) ≡ true =
      find_holds _ s.rotations r h in
    (
      ground arith,
      ground (arith, rotation_status_eq.agrees r.status RotationStatus.grace),
      find-by_id (λ x. x.id) _ s.rotations r v.rotations_ascending h,
    )

-- Of the two tests of the deadline one is the negation of the other.
ran_out : (o : Option ℕ) (now : ℕ) → still_running o now ≡ false → expired_by o now ≡ true
ran_out none now h = cc
ran_out (some t) now h = ground arith

runs_on : (o : Option ℕ) (now : ℕ) → still_running o now ≡ true → expired_by o now ≡ false
runs_on none now h = refl
runs_on (some t) now h = ground arith

unselected :
    (s : Database) (now key : ℕ)
    → find (λ x. x.id == key && x.status == RotationStatus.grace) s.rotations ≡ none
    → (r : DdnsCredentialRotation) → rotation_at key s.rotations ≡ some r
    → is_due now r ≡ false
unselected s now key h r at =
    let own : nat_beq r.id key ≡ true = find_holds _ s.rotations r at in
    let off : (r.id == key && r.status == RotationStatus.grace) ≡ false =
      find-none _ _ s.rotations r h at in
    ground arith

module _ (db : Gorm) (s : Database) (v : IsSound s) (item : DdnsCredentialRotation) (now : ℕ) where
  abbrev pub ItemDone : Bool → Database → Type 0
  ItemDone b s' =
      IsSound s'
      × CompletesDue now (λ i. i == item.id) s s'
      × RevokesDue now (λ i. i == item.id) s s'
      × KeepsCredentials s s'

  -- Where the rotation of the item is not due, nothing is revoked.
  spares :
      ((r : DdnsCredentialRotation)
        → rotation_at item.id s.rotations ≡ some r
        → is_due now r ≡ false)
      → RevokesDue now (λ i. i == item.id) s s
  spares h i r at same due =
      let off =
        h r (subst (λ k. rotation_at k s.rotations ≡ some r) ((nat_beq_iff i item.id).0 same) at) in
      absurd (ground arith)

  -- The update of the credential of a due rotation.
  module _ (r : DdnsCredentialRotation) (at : rotation_at item.id s.rotations ≡ some r)
      (previous : HasCredential s.ddns_credentials r.previous_credential_id r.device_id
        CredentialStatus.grace) where
    abbrev after_revoke : List DdnsCredential
    after_revoke =
        changed s.ddns_credentials r.previous_credential_id r.device_id CredentialStatus.grace
          (revoke now)

    revoked_previous :
        (i : ℕ) (q : DdnsCredentialRotation)
        → rotation_at i s.rotations ≡ some q
        → (i == item.id) ≡ true
        → is_due now q ≡ true
        → HasCredential after_revoke q.previous_credential_id q.device_id CredentialStatus.revoked
    revoked_previous i q q_at same due =
        let (c, _, dev, _, after) =
          changed_hit s.ddns_credentials _ _ _ (revoke now) (λ x. refl) v.credentials_ascending
            (HasCredential-count s.ddns_credentials _ _ _ v.credentials_ascending previous) in
        let this : r ≡ q = some-injective r q (
          sym at
          ∙ subst (λ k. rotation_at k s.rotations ≡ some q) ((nat_beq_iff i item.id).0 same)
              q_at) in
        subst
          (λ (x : DdnsCredentialRotation).
            HasCredential after_revoke x.previous_credential_id x.device_id
              CredentialStatus.revoked)
          this (revoke now c, after, dev, refl)

    keeps_others :
        (i d : ℕ) (status : CredentialStatus)
        → status ≢ CredentialStatus.grace
        → HasCredential s.ddns_credentials i d status
        → HasCredential after_revoke i d status
    keeps_others i d status ne has =
        changed_other s.ddns_credentials _ _ _ (revoke now) (λ x. refl) i d status
          (HasCredential-ne s.ddns_credentials _ _ _ _ _ _ ne has previous) has

  complete_rotation-Ensures :
      (o : Option DdnsCredentialRotation)
      → find (λ x. x.id == item.id && x.status == RotationStatus.grace) s.rotations ≡ o
      → Ensures ItemDone (λ e. ⊥) (complete_rotation db now o) s
  unfolding complete_rotation
  complete_rotation-Ensures none h =
      let off = unselected s now item.id h in
      Ensures-pure false s (v, stays s now item.id off, spares off, λ i d st ne has. has)
  complete_rotation-Ensures (some r) h =
      let (own, st, at) = selected s v item.id r h in
      let (n, t, new, _, active, previous) =
        subst (Supported s.ddns_credentials r) st (v.supported r.id r at) in
      let here : rotation_at item.id s.rotations ≡ some r =
        subst (λ k. rotation_at k s.rotations ≡ some r) own at in
      let asc = v.credentials_ascending in
      Ensures-if _ _ _ s
        (λ on.
          let later : (q : DdnsCredentialRotation)
              → rotation_at item.id s.rotations ≡ some q
              → is_due now q ≡ false =
            λ q q_at.
              subst (λ y. is_due now y ≡ false) (some-injective r q (sym here ∙ q_at))
                (not_yet r (runs_on r.grace_until now on)) in
          Ensures-pure false s (v, stays s now item.id later, spares later, λ i d st ne has. has))
        λ off. update_where-Ensures db ddns_credentials_table _ _ _ s (
          one_row-Ensures _ _ _ (count-credential_where s.ddns_credentials _ _ _ asc previous) (
            update_where-Ensures db rotations_table _ _ _ _ (
              Ensures-pure true _ (
                move-IsSound s v r _ (to_completed now) at (rw st refl)
                    (changed-Ascending s.ddns_credentials _ _ _ (revoke now) (λ c. refl) asc)
                    (changed-Frame s.ddns_credentials _ _ _ (revoke now) (λ c. refl)) (λ x. refl)
                    (λ x. refl) tt,
                moves s now item.id r here own (now_due r st (ran_out r.grace_until now off)),
                revoked_previous r here previous,
                keeps_others r here previous,
              ))))
    where
      not_yet :
          (q : DdnsCredentialRotation) → expired_by q.grace_until now ≡ false → is_due now q ≡ false
      not_yet q e = ground arith

      now_due :
          (q : DdnsCredentialRotation)
          → q.status ≡ RotationStatus.grace
          → expired_by q.grace_until now ≡ true
          → is_due now q ≡ true
      now_due q st e = rw (st, e) refl

  pub complete_rotation_tx_Sound :
      Atomic ItemDone (λ e. ⊥) (db.transaction (complete_rotation_tx db item now)) s
  unfolding complete_rotation_tx
  complete_rotation_tx_Sound =
      transaction-Atomic db _ s
        (first?-Ensures db rotations_table _ _ s (complete_rotation-Ensures _ refl))
