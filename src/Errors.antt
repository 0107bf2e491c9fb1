-- ===== src/Errors.antt =====
-- The error values of the services: the `Err...` variables of the packages under
-- products/hermes/internal, and what reaches the callers from the database and the random source.
-- A wrapped error is the error that it wraps, since the callers only ask `errors.Is`.

-- What gorm returns in place of rows: no row, or any other failure of a statement.
pub data DbError : Type 0 where
  record_not_found : DbError
  failure : DbError

pub data CredentialError : Type 0 where
  device_not_found no_active_credential multiple_active rotation_in_progress : CredentialError
  rotation_not_found invalid_rotation_state invalid_grace_period : CredentialError
  invalid_candidate_key_id invalid_candidate_hash : CredentialError

pub data AgentAuthError : Type 0 where
  bad_auth device_not_found active_credential_exists credential_not_found : AgentAuthError

pub data EnrollmentError : Type 0 where
  bad_auth device_not_found enrollment_not_found enrollment_in_progress : EnrollmentError
  invalid_state invalid_ttl : EnrollmentError

pub data DdnsError : Type 0 where
  bad_auth not_fqdn bad_ip dns_update : DdnsError

pub data TelemetryError : Type 0 where
  device_not_found invalid_memory_metrics invalid_disk_metrics invalid_cpu_count : TelemetryError
  invalid_load invalid_counter : TelemetryError

pub data NetworkError : Type 0 where
  device_not_found no_wan invalid_interface duplicate_interface multiple_default_routes :
      NetworkError
  invalid_wan_role invalid_ip_address invalid_public_ipv4 invalid_network_name : NetworkError
  invalid_vlan invalid_cidr invalid_gateway : NetworkError

-- An error that a service decides on.
pub data Refusal : Type 0 where
  credential : CredentialError → Refusal
  agent_auth : AgentAuthError → Refusal
  enrollment : EnrollmentError → Refusal
  ddns : DdnsError → Refusal
  telemetry : TelemetryError → Refusal
  network : NetworkError → Refusal

-- `entropy` is the failure of `rand.Read`.
pub data Error : Type 0 where
  refused : Refusal → Error
  database : DbError → Error
  entropy : Error

pub data Result {ℓ κ} (E : Type ℓ) (A : Type κ) : Type (ℓ ⊔ κ) where
  ok : A → Result E A
  err : E → Result E A
