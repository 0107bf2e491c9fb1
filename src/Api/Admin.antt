-- ===== src/Api/Admin.antt =====
-- The handlers of the administration: credential_routes.go, and those of agent_routes.go,
-- enrollment_routes.go, telemetry_routes.go, network_context_routes.go and server.go that an
-- administrator calls; Rotations has those of credential_routes.go. The columns `created_at` that some lists are ordered by are left out of the
-- records, so that the orders are given.
pub mod Rotations
use olimpo.Common.{
  ℕ, Bool, true, Option, none, some, List, [], ◌∷◌, ◌==◌, nat_eq, ◌&&◌, Text, if◌then◌else◌, ℤ, pos,
  negsuc, ltb, take, text_ltb,
}
use olimpo.Errors.{Error, CredentialError, credential, refused, Result, ok, err}
use olimpo.Gorm.{Gorm, Exec, pure, refuse, ◌>>=◌, ◌>>◌, first_or, ordered_rows, count_rows}
use olimpo.Model.{
  Database, DdnsCredential, DdnsCredentialRotation, DeviceIdentityCredential, UpdateLog,
  domains_table, devices_table, ddns_credentials_table, agent_credentials_table, rotations_table,
  update_logs_table,
}
use olimpo.Text.{text, is_empty}
use olimpo.Errors.{database, record_not_found}
use olimpo.Keys.{GeneratedKey}
use olimpo.AgentAuth.{issue_credential, revoke_credential}
use olimpo.Enrollment.{list_enrollments, get, revoke_token, ExchangeResult}
use olimpo.Enrollment.Grant.{create_token, exchange}
use olimpo.Credential.Advance.{request_rotation}
use olimpo.Credential.Finish.{rollback, reconcile_expired_grace, Reconciled}
use olimpo.Grouping.{every, device_less}
use olimpo.Telemetry.{agent_status}
use olimpo.Telemetry.Statuses.{list_statuses}
use olimpo.Network.Contexts.{network_context, list_contexts}
use olimpo.Api.Requests.{
  Status, bearer_token, credential_error, agent_credential_admin_error, enrollment_admin_error,
  network_context_error, telemetry_error,
}
use olimpo.Api.Devices.{or_default}
use olimpo.Api.Replies.{
  Body, Reply, Handler, DdnsConfiguration, reply_with, respond, agent_unauthorized, Bound,
  end_of_file, malformed, bound, bad_request, with_optional_body, with_param,
}

-- createAgentEnrollmentRequest
pub record EnrollmentRequest : Type 0 where
  pub ttl_minutes : ℤ

-- Whether a row was created after another.
pub record Newer : Type 0 where
  pub ddns_credential : DdnsCredential → DdnsCredential → Bool
  pub identity : DeviceIdentityCredential → DeviceIdentityCredential → Bool
  pub log : UpdateLog → UpdateLog → Bool

-- enrollment.DefaultTTLMinutes
abbrev pub default_ttl_minutes : ℤ
default_ttl_minutes = pos 15

abbrev pub bad_device : Text
bad_device = text "invalid device id"

abbrev pub shown : {A : Type 0} → (A → Body) → A → Reply
shown body a = reply_with Status.success (body a)

-- A query whose failure is always an internal error.
abbrev pub query_error : Error → Status
query_error e = Status.internal_error

-- What follows ensureDeviceExists.
abbrev pub where_exists : Handler → Result Error (Unit {0}) × Database → Reply × Database
where_exists h (ok u, s) = h s
where_exists h (err e, s) = (reply_with (credential_error e) (Body.error_of e), s)

module _ (db : Gorm) where
  -- ensureDeviceExists
  unfoldable pub ensure_device_exists : ℕ → Exec Database (Unit {0})
  ensure_device_exists device_id = do
    n ← count_rows db devices_table (λ d. d.id == device_id)
    if n == 0 then refuse (credential CredentialError.device_not_found) else pure tt

  -- listDomains
  unfoldable pub list_domains : Handler
  list_domains s =
      respond (shown Body.domains) query_error
        (ordered_rows db domains_table (λ a b. text_ltb a.name b.name) every s)

  -- listDevices
  unfoldable pub list_devices : Handler
  list_devices s =
      respond (shown Body.devices) query_error (ordered_rows db devices_table device_less every s)

  -- listCredentials
  unfoldable pub list_credentials : Newer → Text → Handler
  unfolding with_param
  list_credentials newer param = with_param param bad_device λ device_id s.
      respond (shown Body.ddns_credentials) query_error (
        ordered_rows db ddns_credentials_table newer.ddns_credential (λ c. c.device_id == device_id)
          s)

  -- listLogs
  unfoldable pub list_logs : Newer → Handler
  list_logs newer s =
      respond (λ logs. shown Body.logs (take 100 logs)) query_error
        (ordered_rows db update_logs_table newer.log every s)

  -- listAgentCredentials
  unfoldable pub list_agent_credentials : Newer → Text → Handler
  unfolding with_param ensure_device_exists
  list_agent_credentials newer param = with_param param bad_device λ device_id s.
      where_exists
        (λ t. respond (shown Body.identities) query_error (
          ordered_rows db agent_credentials_table newer.identity (λ c. c.device_id == device_id) t))
        (ensure_device_exists device_id s)

  -- revokeAgentCredential
  unfoldable pub revoke_agent_credential : Text → Text → ℕ → Handler
  unfolding with_param
  revoke_agent_credential param credential_param now = with_param param bad_device λ device_id.
      with_param credential_param (text "invalid agent credential id") λ credential_id s.
        respond (λ u. reply_with Status.success (Body.message (text "agent credential revoked")))
          agent_credential_admin_error (revoke_credential db device_id credential_id now s)

  -- listAgentEnrollments
  unfoldable pub list_agent_enrollments : Text → ℕ → Handler
  unfolding with_param
  list_agent_enrollments param now = with_param param bad_device λ device_id s.
      respond (shown Body.enrollments) enrollment_admin_error (list_enrollments db device_id now s)

  -- getAgentEnrollment
  unfoldable pub get_agent_enrollment : Text → Text → ℕ → Handler
  unfolding with_param
  get_agent_enrollment param enrollment_param now = with_param param bad_device λ device_id.
      with_param enrollment_param (text "invalid enrollment id") λ enrollment_id s.
        respond (shown Body.enrollment) enrollment_admin_error
          (get db device_id enrollment_id now s)

  -- revokeAgentEnrollment
  unfoldable pub revoke_agent_enrollment : Text → Text → ℕ → ℕ → ℕ → Handler
  unfolding with_param
  revoke_agent_enrollment param enrollment_param start now later =
      with_param param bad_device λ device_id.
        with_param enrollment_param (text "invalid enrollment id") λ enrollment_id s.
          respond (shown (λ e. Body.enrollment_step e (text "agent enrollment revoked")))
            enrollment_admin_error (revoke_token db device_id enrollment_id start now later s)

  -- getAgentStatus
  unfoldable pub get_agent_status : Text → ℕ → Handler
  unfolding with_param
  get_agent_status param now = with_param param bad_device λ device_id s.
      respond (shown Body.status_of) telemetry_error (agent_status db device_id now s)

  -- listAgentStatuses
  unfoldable pub list_agent_statuses : (ℕ → ℕ) → Handler
  list_agent_statuses clock s =
      respond (shown Body.status_list) telemetry_error (list_statuses db clock s)

  -- getNetworkContext
  unfoldable pub get_network_context : Text → Handler
  unfolding with_param
  get_network_context param = with_param param bad_device λ device_id s.
      respond (shown Body.context_of) network_context_error (network_context db device_id s)

  -- listNetworkContexts
  unfoldable pub list_network_contexts : Handler
  list_network_contexts s =
      respond (shown Body.context_list) network_context_error (list_contexts db s)

module _ (db : Gorm) (sum256 : List ℕ → List ℕ) (id_raw secret_raw : Option (List ℕ))
    (now : ℕ) where
  -- issueAgentCredential
  unfoldable pub issue_agent_credential : Text → Handler
  unfolding with_param
  issue_agent_credential param = with_param param bad_device λ device_id s.
      respond
        (λ issued. reply_with Status.created (Body.identity_issued issued.0 issued.1.plaintext))
        agent_credential_admin_error (issue_credential db sum256 device_id id_raw secret_raw now s)

  -- createAgentEnrollment
  unfoldable pub create_agent_enrollment :
      (EnrollmentRequest → Option Text) → Text → Bound EnrollmentRequest → Handler
  unfolding with_param with_optional_body
  create_agent_enrollment valid param body = with_param param bad_device λ device_id.
      with_optional_body record { ttl_minutes = pos 0 } valid body
        λ req s.
          respond
            (λ made. reply_with Status.created (Body.enrollment_created made.0 made.1.plaintext))
            enrollment_admin_error
            (create_token db sum256 device_id (or_default default_ttl_minutes req.ttl_minutes)
              id_raw secret_raw now s)
