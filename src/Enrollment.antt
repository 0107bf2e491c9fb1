-- ===== src/Enrollment.antt =====
-- products/hermes/internal/enrollment/service.go: one-time tokens by which an agent gets its identity.
pub mod Once
pub mod Grant
pub mod Tokens
pub mod Keeps
pub mod Steps
pub mod GrantSteps
pub mod Lifecycle
pub mod Exchange
use olimpo.Common.{
  ℕ, Bool, true, false, not, ◌&&◌, ◌||◌, Option, none, some, List, [], leb, ltb, ◌==◌, nat_eq,
  text_eq, Text, if◌then◌else◌, ℤ, pos, ltb_ℤ,
}
use olimpo.Errors.{
  EnrollmentError, enrollment_not_found, enrollment_in_progress, invalid_state, invalid_ttl,
  active_credential_exists, credential_not_found, enrollment, agent_auth, Error, refused, database,
  record_not_found, Result, ok, err,
}
use olimpo.Gorm.{
  Gorm, Exec, pure, refuse, ◌>>=◌, ◌>>◌, lift, refuse_as, first_or, first?, latest_or, count_rows,
  update_where, update_row, create_row, ordered_rows,
}
use olimpo.Model.{
  Database, Device, DeviceIdentityCredential, AgentEnrollment, CredentialStatus, EnrollmentStatus,
  credential_status_eq, enrollment_status_eq, devices_table, agent_credentials_table,
  enrollments_table,
}
use olimpo.Text.{is_empty}
use olimpo.Keys.{GeneratedKey, generate_enrollment_key, parse_enrollment_key_id, verify_api_key}
use olimpo.Credential.Base.{active_device, add_minutes}
use olimpo.AgentAuth.{active_identity_of, identity_where, issue_credential_tx, revoke_credential_tx}

-- MinTTLMinutes, MaxTTLMinutes
abbrev pub min_ttl_minutes : ℤ
min_ttl_minutes = pos 1

abbrev pub max_ttl_minutes : ℤ
max_ttl_minutes = pos 1440

pub record ExchangeResult : Type 0 where
  pub enrollment : AgentEnrollment
  pub device : Device
  pub credential : DeviceIdentityCredential
  pub agent_key : GeneratedKey

-- openStatuses, under `IN`
abbrev pub is_open_enrollment : EnrollmentStatus → Bool
is_open_enrollment status = status == EnrollmentStatus.pending || status == EnrollmentStatus.issued

-- `id = ? AND status = ?`
abbrev pub enrollment_where : ℕ → EnrollmentStatus → AgentEnrollment → Bool
enrollment_where i status e = e.id == i && e.status == status

-- `agent_credential_id = ?`
abbrev pub names_identity : Option ℕ → ℕ → Bool
names_identity none i = false
names_identity (some j) i = j == i

-- What the `Updates` write.
abbrev pub expire : AgentEnrollment → AgentEnrollment
expire e = record e { status = EnrollmentStatus.expired }

abbrev pub claim : ℕ → Text → AgentEnrollment → AgentEnrollment
claim now ip e = record e { status = EnrollmentStatus.issued; issued_at = some now; used_ip = ip }

abbrev pub link_identity : ℕ → AgentEnrollment → AgentEnrollment
link_identity i e = record e { agent_credential_id = some i }

abbrev pub complete : ℕ → AgentEnrollment → AgentEnrollment
complete now e = record e { status = EnrollmentStatus.completed; completed_at = some now }

abbrev pub revoke_enrollment : ℕ → AgentEnrollment → AgentEnrollment
revoke_enrollment now e = record e { status = EnrollmentStatus.revoked; revoked_at = some now }

abbrev pub note_version : Text → Device → Device
note_version version d = if not (is_empty version) then record d { agent_version = version } else d

abbrev pub see_device : ℕ → Text → Text → Device → Device
see_device now ip version d =
    note_version version (record d { last_seen_at = some now; last_ip = ip })

-- `if resultErr != nil { return resultErr }`
abbrev pub settle : Option ExchangeResult → Exec Database ExchangeResult
settle none = refuse (enrollment EnrollmentError.bad_auth)
settle (some r) = pure r

-- `errors.Is(err, agentauth.ErrCredentialNotFound)`
abbrev pub if_not_found :
    Exec Database (Unit {0})
    → Result Error (Unit {0}) × Database
    → Result Error (Unit {0}) × Database
if_not_found handler (ok u, s) = (ok u, s)
if_not_found handler (err (refused (agent_auth credential_not_found)), s) = handler s
if_not_found handler (err e, s) = (err e, s)

abbrev pub on_not_found :
    Exec Database (Unit {0}) → Exec Database (Unit {0}) → Exec Database (Unit {0})
on_not_found handler m s = if_not_found handler (m s)

module _ (db : Gorm) where
  -- expirePending
  unfoldable pub expire_pending : ℕ → ℕ → Exec Database ℕ
  expire_pending device_id now =
      update_where db enrollments_table
        (λ e.
          e.status == EnrollmentStatus.pending
          && leb e.expires_at now
          && (device_id == 0 || e.device_id == device_id))
        expire

  -- reconcileExpired
  unfoldable pub reconcile_expired : ℕ → ℕ → Exec Database ℕ
  unfolding expire_pending
  reconcile_expired device_id now = db.transaction (expire_pending device_id now)

  -- ensureDevice
  unfoldable pub ensure_device : ℕ → Exec Database (Unit {0})
  ensure_device device_id = do
    n ← count_rows db devices_table (λ d. d.id == device_id)
    if n == 0 then refuse (enrollment EnrollmentError.device_not_found) else pure tt

  -- Get
  unfoldable pub get : ℕ → ℕ → ℕ → Exec Database AgentEnrollment
  unfolding reconcile_expired
  get device_id enrollment_id now = do
    reconcile_expired device_id now
    first_or db enrollments_table (refused (enrollment enrollment_not_found))
        (λ e. e.id == enrollment_id && e.device_id == device_id)

  -- List, the newest first
  unfoldable pub list_enrollments : ℕ → ℕ → Exec Database (List AgentEnrollment)
  unfolding reconcile_expired ensure_device
  list_enrollments device_id now = do
    ensure_device device_id
    reconcile_expired device_id now
    ordered_rows db enrollments_table (λ a b. ltb b.created_at a.created_at)
        (λ e. e.device_id == device_id)

  -- `if enrollment.Status == model.EnrollmentStatusIssued { .. }` of Confirm
  unfoldable pub complete_issued : AgentEnrollment → ℕ → Exec Database AgentEnrollment
  complete_issued e now = if not (e.status == EnrollmentStatus.issued) then pure e else do
    affected ←
        update_where db enrollments_table (enrollment_where e.id EnrollmentStatus.issued)
          (complete now)
    if not (affected == 1) then refuse (enrollment invalid_state) else pure (complete now e)

  unfoldable pub confirm_enrollment_tx : ℕ → ℕ → Text → Text → ℕ → Exec Database AgentEnrollment
  unfolding complete_issued
  confirm_enrollment_tx device_id agent_credential_id caller_ip agent_version now = do
    e ←
        latest_or db enrollments_table (refused (enrollment enrollment_not_found))
          (λ e. e.created_at)
          (λ e.
            e.device_id == device_id
            && names_identity e.agent_credential_id agent_credential_id
            && (e.status == EnrollmentStatus.issued || e.status == EnrollmentStatus.completed))
    result ← complete_issued e now
    update_where db devices_table (λ d. d.id == device_id) (see_device now caller_ip agent_version)
    pure result

  -- Confirm
  unfoldable pub confirm_enrollment : ℕ → ℕ → Text → Text → ℕ → Exec Database AgentEnrollment
  confirm_enrollment device_id agent_credential_id caller_ip agent_version now =
      db.transaction
        (confirm_enrollment_tx device_id agent_credential_id caller_ip agent_version now)

  -- The revocation of an issued identity in Revoke, with the time that it reads.
  unfoldable pub revoke_identity_of : Option ℕ → ℕ → ℕ → Exec Database (Unit {0})
  revoke_identity_of none device_id now = refuse (enrollment invalid_state)
  revoke_identity_of (some i) device_id now =
      on_not_found
        (do
          refuse_as (enrollment invalid_state) (
              first_or db agent_credentials_table (database record_not_found)
                (identity_where i device_id CredentialStatus.revoked))
          pure tt)
        (revoke_credential_tx db device_id i now)

  -- The end of Revoke.
  unfoldable pub record_revocation : AgentEnrollment → ℕ → Exec Database AgentEnrollment
  record_revocation e now = do
    affected ←
        update_where db enrollments_table (λ x. x.id == e.id && is_open_enrollment x.status)
          (revoke_enrollment now)
    if not (affected == 1)
        then refuse (enrollment invalid_state)
        else pure (revoke_enrollment now e)

  -- The `switch` of Revoke, at the status of the enrollment.
  unfoldable pub revoke_at :
      AgentEnrollment → EnrollmentStatus → ℕ → ℕ → ℕ → Exec Database AgentEnrollment
  unfolding revoke_identity_of record_revocation
  revoke_at e EnrollmentStatus.revoked device_id now later = pure e
  revoke_at e EnrollmentStatus.pending device_id now later = record_revocation e now
  revoke_at e EnrollmentStatus.issued device_id now later = do
    revoke_identity_of e.agent_credential_id device_id later
    record_revocation e now
  revoke_at e _ device_id now later = refuse (enrollment invalid_state)

  unfoldable pub revoke_tx : ℕ → ℕ → ℕ → ℕ → Exec Database AgentEnrollment
  unfolding revoke_at
  revoke_tx device_id enrollment_id now later = do
    e ←
        first_or db enrollments_table (refused (enrollment enrollment_not_found))
          (λ e. e.id == enrollment_id && e.device_id == device_id)
    revoke_at e e.status device_id now later

  -- Revoke, which reads the time for the expiry, for its own update and for that of the identity.
  unfoldable pub revoke_token : ℕ → ℕ → ℕ → ℕ → ℕ → Exec Database AgentEnrollment
  unfolding revoke_tx reconcile_expired
  revoke_token device_id enrollment_id start now later = do
    reconcile_expired device_id start
    db.transaction (revoke_tx device_id enrollment_id now later)
