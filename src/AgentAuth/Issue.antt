-- ===== src/AgentAuth/Issue.antt =====
-- IssueCredential and RevokeCredential, from tables with one active credential for each device.
use mathlib.Core.Option
use olimpo.Common.{
  ◌∷◌, [], ◌++◌, ◌∙◌, if◌then◌else◌, find-update_rows, nat_beq, ℕ, ◌<◌, ◌≡◌, ◌≢◌, refl, subst, ◌⊎◌,
  inl, inr, true, false, not, Option, none, some, List, arith, ◌==◌, nat_eq, find, count,
  update_rows, find_holds, find-by_id, find-count_pos, find-update_hit,
}
use olimpo.Errors.{
  AgentAuthError, active_credential_exists, credential_not_found, agent_auth, Refusal, Error,
  Result, ok, err, entropy,
}
use olimpo.Gorm.{Gorm, lift}
use olimpo.Gorm.Rules.{
  Ensures, Atomic, Ensures-if, Ensures-refuse, Ensures-pure, Ensures-bind, transaction-Atomic,
}
use olimpo.Gorm.Statements.{
  first_or-Ensures, count_rows-Ensures, create_row-Ensures, update_where-Ensures,
}
use olimpo.Model.{
  Database, Device, DeviceIdentityCredential, CredentialStatus, credential_status_eq, devices_table,
  agent_credentials_table,
}
use olimpo.Keys.{GeneratedKey, generate_agent_key, generate_key}
use olimpo.Credential.Base.{active_device}
use olimpo.AgentAuth.{
  active_identity_of, identity_where, revoke_identity, issue_credential_tx, issue_credential,
  revoke_credential_tx, revoke_credential,
}
use olimpo.AgentAuth.Identity.{
  identity_at, OneIdentity, append-OneIdentity, identity_new, update-OneIdentity,
}

abbrev pub NotIssuable : Database → ℕ → Refusal → Type 0
NotIssuable s d e =
    ((e ≡ agent_auth AgentAuthError.device_not_found) × (find (active_device d) s.devices ≡ none))
    ⊎ ((e ≡ agent_auth active_credential_exists)
        × (count (active_identity_of d) s.agent_credentials ≢ 0))

-- The new credential stands under its key, which no row had, active, with the identifier and the hash
-- of the generated key; the device is an active one and had no active credential; the rows before it
-- stay.
abbrev pub Issued : Database → ℕ → DeviceIdentityCredential × GeneratedKey → Database → Type 0
Issued s d (c, key) s' =
    OneIdentity s'.agent_credentials
    × (identity_at c.id s'.agent_credentials ≡ some c)
    × (c.device_id ≡ d)
    × (c.status ≡ CredentialStatus.active)
    × (c.credential_id ≡ key.id)
    × (c.secret_hash ≡ key.hash)
    × (count (active_identity_of d) s.agent_credentials ≡ 0)
    × ((device : Device) × (find (active_device d) s.devices ≡ some device))
    × (s' ≡ record s { agent_credentials = s.agent_credentials ++ c ∷ [] })

lift-Ensures :
    {A : Type 0} {B : Refusal → Type 0} (r : Result Error A) (s : Database)
    → ((e : Refusal) → r ≢ err (Error.refused e))
    → Ensures (λ a s'. (s' ≡ s) × (r ≡ ok a)) B (lift r) s
lift-Ensures (ok a) s h = record { holds = (refl, refl) }
lift-Ensures (err (Error.refused e)) s h = record { holds = absurd (h e refl) }
lift-Ensures (err (Error.database e)) s h = record { holds = tt }
lift-Ensures (err entropy) s h = record { holds = tt }

never_refused :
    (sum256 : List ℕ → List ℕ) (a b : Option (List ℕ)) (e : Refusal)
    → generate_agent_key sum256 a b ≢ err (Error.refused e)
unfolding generate_key
never_refused sum256 none b e h = cc
never_refused sum256 (some a) none e h = cc
never_refused sum256 (some a) (some b) e h = cc

none_yet : (n : ℕ) → not (n == 0) ≡ false → n ≡ 0
none_yet n h = ground arith

some_yet : (n : ℕ) → not (n == 0) ≡ true → n ≢ 0
some_yet n h = ground arith

module _ (db : Gorm) (sum256 : List ℕ → List ℕ) (s : Database) (v : OneIdentity s.agent_credentials)
    (d : ℕ) (id_raw secret_raw : Option (List ℕ)) (now : ℕ) where
  pub issue_credential_tx_Sound :
      Ensures
        (Issued s d)
        (NotIssuable s d)
        (issue_credential_tx db sum256 d id_raw secret_raw now)
        s
  unfolding issue_credential_tx
  issue_credential_tx_Sound =
      first_or-Ensures db devices_table _ _ _ s (λ h. inl (refl, h))
        λ device present. count_rows-Ensures db agent_credentials_table _ _ s (
          Ensures-if _ _ _ s (λ t. Ensures-refuse _ s (inr (refl, some_yet _ t)))
            λ t.
              Ensures-bind _ _ _ s (lift-Ensures _ s (never_refused sum256 id_raw secret_raw))
                λ key s' h. rw h.0 (
                  create_row-Ensures db agent_credentials_table _ _ s λ n at _ above.
                    Ensures-pure _ _ (
                      append-OneIdentity s.agent_credentials v _ above (none_yet _ t),
                      identity_new s.agent_credentials v _ above (none_yet _ t),
                      refl,
                      refl,
                      refl,
                      refl,
                      none_yet _ t,
                      (device, present),
                      refl,
                    )))

  -- From tables with one active credential for each device, an issue that succeeds is for an active
  -- device that had no active credential: it adds one, with the identifier and the hash of the returned
  -- key, changes nothing else, and keeps that property. A refusal says that the device is not an active one or has an
  -- active credential. Whatever fails, the database is as before.
  pub issue_credential_Sound :
      Atomic (Issued s d) (NotIssuable s d) (issue_credential db sum256 d id_raw secret_raw now) s
  unfolding issue_credential
  issue_credential_Sound = transaction-Atomic db _ s issue_credential_tx_Sound

-- The rows of other keys are as they were.
abbrev pub OthersStay : ℕ → List DeviceIdentityCredential → List DeviceIdentityCredential → Type 0
OthersStay i cs cs' = (j : ℕ) → j ≢ i → identity_at j cs' ≡ identity_at j cs

-- The identity of that key and device was active, and is revoked now; no other row changes.
abbrev pub Revoked : Database → ℕ → ℕ → ℕ → Unit {0} → Database → Type 0
Revoked s d i now u s' =
    OneIdentity s'.agent_credentials
    × (s' ≡ record s { agent_credentials = s'.agent_credentials })
    × OthersStay i s.agent_credentials s'.agent_credentials
    × ((c : DeviceIdentityCredential) × (c' : DeviceIdentityCredential) × (find
            (identity_where i d CredentialStatus.active) s.agent_credentials
          ≡ some c)
        × (identity_at i s'.agent_credentials ≡ some c')
        × (c'.device_id ≡ d)
        × (c'.status ≡ CredentialStatus.revoked)
        × (c'.revoked_at ≡ some now)
        × (c'.credential_id ≡ c.credential_id)
        × (c'.secret_hash ≡ c.secret_hash))

abbrev pub NotRevocable : Database → ℕ → ℕ → Refusal → Type 0
NotRevocable s d i e =
    (e ≡ agent_auth credential_not_found)
    × (count (identity_where i d CredentialStatus.active) s.agent_credentials ≢ 1)

identity_where_key :
    (i d : ℕ) (c : DeviceIdentityCredential)
    → identity_where i d CredentialStatus.active c ≡ true
    → c.id ≡ i
identity_where_key i d c h = ground arith

identity_where_device :
    (i d : ℕ) (c : DeviceIdentityCredential)
    → identity_where i d CredentialStatus.active c ≡ true
    → c.device_id ≡ d
identity_where_device i d c h = ground arith

update-OthersStay :
    (i d : ℕ) (f : DeviceIdentityCredential → DeviceIdentityCredential)
    (cs : List DeviceIdentityCredential)
    → ((x : DeviceIdentityCredential) → (f x).id ≡ x.id)
    → OthersStay i cs (update_rows (identity_where i d CredentialStatus.active) f cs)
update-OthersStay i d f cs keeps j ne =
    find-update_rows (λ x. x.id) (identity_where i d CredentialStatus.active) f j cs keeps
    ∙ go (identity_at j cs) refl
  where
    go :
        (o : Option DeviceIdentityCredential)
        → identity_at j cs ≡ o
        → Option.map (λ x. if identity_where i d CredentialStatus.active x then f x else x) o ≡ o
    go none e = refl
    go (some x) e =
        let own : nat_beq x.id j ≡ true = find_holds _ cs x e in
        let off : identity_where i d CredentialStatus.active x ≡ false = ground arith in rw off refl

one_affected : (n : ℕ) → not (n == 1) ≡ false → 0 < n
one_affected n h = ground arith

none_affected : (n : ℕ) → not (n == 1) ≡ true → n ≢ 1
none_affected n h = ground arith

module _ (db : Gorm) (s : Database) (v : OneIdentity s.agent_credentials) (d i now : ℕ) where
  revoked_at_key :
      (c : DeviceIdentityCredential)
      → find (identity_where i d CredentialStatus.active) s.agent_credentials ≡ some c
      → identity_at i (
          update_rows
            (identity_where i d CredentialStatus.active)
            (revoke_identity now)
            s.agent_credentials)
        ≡ some (revoke_identity now c)
  revoked_at_key c e =
      let t = find_holds (identity_where i d CredentialStatus.active) s.agent_credentials c e in
      let own : c.id ≡ i = identity_where_key i d c t in
      let at : identity_at i s.agent_credentials ≡ some c =
        subst (λ j. identity_at j s.agent_credentials ≡ some c) own
          (find-by_id (λ x. x.id) _ s.agent_credentials c v.ascending e) in
      find-update_hit (λ x. x.id) _ (revoke_identity now) s.agent_credentials (λ x. refl) i c at t

  pub revoke_credential_tx_Sound :
      Ensures (Revoked s d i now) (NotRevocable s d i) (revoke_credential_tx db d i now) s
  unfolding revoke_credential_tx
  revoke_credential_tx_Sound = update_where-Ensures db agent_credentials_table _ _ _ s (
      Ensures-if _ _ _ _ (λ t. Ensures-refuse _ _ (refl, none_affected _ t))
        λ t.
          let (c, e) = find-count_pos _ s.agent_credentials (one_affected _ t) in
          Ensures-pure tt _ (
            update-OneIdentity s.agent_credentials v _ (revoke_identity now) (λ x. refl) (λ x. refl)
                (λ x h. cc),
            refl,
            update-OthersStay i d (revoke_identity now) s.agent_credentials (λ x. refl),
            (
              c,
              revoke_identity now c,
              e,
              revoked_at_key c e,
              identity_where_device i d c (find_holds _ s.agent_credentials c e),
              refl,
              refl,
              refl,
              refl,
            ),
          ))

  -- From tables with one active credential for each device, a revocation that succeeds leaves the
  -- active credential of that key and device revoked at this time, and no other row changed; it is
  -- refused only where there is no such credential. Whatever
  -- fails, the database is as before.
  pub revoke_credential_Sound :
      Atomic (Revoked s d i now) (NotRevocable s d i) (revoke_credential db d i now) s
  unfolding revoke_credential
  revoke_credential_Sound = transaction-Atomic db _ s revoke_credential_tx_Sound
