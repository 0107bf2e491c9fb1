-- ===== src/AgentAuth.antt =====
-- products/hermes/internal/agentauth/service.go: the identity credentials of the devices' agents.
pub mod Identity
pub mod Issue
pub mod Verify
use olimpo.Common.{
  ℕ, Bool, true, false, not, ◌&&◌, Option, none, some, List, [], ltb, ◌==◌, nat_eq, text_eq, Text,
  if◌then◌else◌,
}
use olimpo.Errors.{
  AgentAuthError, active_credential_exists, credential_not_found, agent_auth, Error, refused,
  database, Result, ok, err,
}
use olimpo.Gorm.{
  Gorm, Exec, pure, refuse, ◌>>=◌, ◌>>◌, lift, refuse_as, first_or, count_rows, update_where,
  update_row, create_row,
}
use olimpo.Model.{
  Database, Device, DeviceIdentityCredential, CredentialStatus, DeviceStatus, credential_status_eq,
  device_status_eq, devices_table, agent_credentials_table,
}
use olimpo.Keys.{GeneratedKey, parse_agent_key_id, verify_api_key, generate_agent_key}
use olimpo.Credential.Base.{active_device}

-- Context
pub record Context : Type 0 where
  pub device : Device
  pub credential : DeviceIdentityCredential

-- `device_id = ? AND status = ?`
abbrev pub active_identity_of : ℕ → DeviceIdentityCredential → Bool
active_identity_of d c = c.device_id == d && c.status == CredentialStatus.active

-- `credential_id = ? AND status = ?`
abbrev pub active_identity : Text → DeviceIdentityCredential → Bool
active_identity key c = c.credential_id == key && c.status == CredentialStatus.active

-- `id = ? AND device_id = ? AND status = ?`
abbrev pub identity_where : ℕ → ℕ → CredentialStatus → DeviceIdentityCredential → Bool
identity_where i d status c = c.id == i && c.device_id == d && c.status == status

-- `ExpiresAt != nil && !ExpiresAt.After(now)`
abbrev pub is_expired : Option ℕ → ℕ → Bool
is_expired none now = false
is_expired (some t) now = not (ltb now t)

abbrev pub use_identity : ℕ → Text → DeviceIdentityCredential → DeviceIdentityCredential
use_identity now ip c = record c { last_used_at = some now; last_used_ip = ip }

abbrev pub revoke_identity : ℕ → DeviceIdentityCredential → DeviceIdentityCredential
revoke_identity now c = record c { status = CredentialStatus.revoked; revoked_at = some now }

module _ (db : Gorm) (sum256 : List ℕ → List ℕ) where
  -- IssueCredentialTx, with the random bytes of the key.
  unfoldable pub issue_credential_tx :
      ℕ
      → Option (List ℕ)
      → Option (List ℕ)
      → ℕ
      → Exec Database (DeviceIdentityCredential × GeneratedKey)
  issue_credential_tx device_id id_raw secret_raw now = do
    first_or db devices_table (refused (agent_auth AgentAuthError.device_not_found))
        (active_device device_id)
    active_count ← count_rows db agent_credentials_table (active_identity_of device_id)
    if not (active_count == 0) then refuse (agent_auth active_credential_exists) else do
      key ← lift (generate_agent_key sum256 id_raw secret_raw)
      credential ← create_row db agent_credentials_table (λ id at. record {
        id = id;
        device_id = device_id;
        credential_id = key.id;
        secret_hash = key.hash;
        status = CredentialStatus.active;
        activated_at = some now;
        expires_at = none;
        revoked_at = none;
        last_used_at = none;
        last_used_ip = [];
      })
      pure (credential, key)

  -- IssueCredential
  unfoldable pub issue_credential :
      ℕ
      → Option (List ℕ)
      → Option (List ℕ)
      → ℕ
      → Exec Database (DeviceIdentityCredential × GeneratedKey)
  issue_credential device_id id_raw secret_raw now =
      db.transaction (issue_credential_tx device_id id_raw secret_raw now)

  unfoldable pub authenticate_id : Option Text → Text → Text → ℕ → Exec Database Context
  authenticate_id none api_key caller_ip now = refuse (agent_auth AgentAuthError.bad_auth)
  authenticate_id (some credential_id) api_key caller_ip now = do
    credential ← refuse_as (agent_auth AgentAuthError.bad_auth) (
        first_or db agent_credentials_table (refused (agent_auth AgentAuthError.bad_auth))
          (active_identity credential_id))
    if is_expired credential.expires_at now
        then refuse (agent_auth AgentAuthError.bad_auth)
        else if not (verify_api_key sum256 api_key credential.secret_hash)
        then refuse (agent_auth AgentAuthError.bad_auth)
        else do
          device ← refuse_as (agent_auth AgentAuthError.bad_auth) (
              first_or db devices_table (refused (agent_auth AgentAuthError.bad_auth))
                (active_device credential.device_id))
          update_row db agent_credentials_table credential (use_identity now caller_ip)
          pure record { device = device; credential = use_identity now caller_ip credential }

  -- Authenticate
  unfoldable pub authenticate : Text → Text → ℕ → Exec Database Context
  unfolding authenticate_id
  authenticate api_key caller_ip now =
      authenticate_id (parse_agent_key_id api_key) api_key caller_ip now

module _ (db : Gorm) where
  -- RevokeCredentialTx
  unfoldable pub revoke_credential_tx : ℕ → ℕ → ℕ → Exec Database (Unit {0})
  revoke_credential_tx device_id credential_id now = do
    affected ←
        update_where db agent_credentials_table
          (identity_where credential_id device_id CredentialStatus.active) (revoke_identity now)
    if not (affected == 1) then refuse (agent_auth credential_not_found) else pure tt

  -- RevokeCredential
  unfoldable pub revoke_credential : ℕ → ℕ → ℕ → Exec Database (Unit {0})
  unfolding revoke_credential_tx
  revoke_credential device_id credential_id now =
      db.transaction (revoke_credential_tx device_id credential_id now)
