-- ===== src/Api/Statuses.antt =====
-- The status codes of errors: which errors the handlers' functions answer as internal ones.
use olimpo.Common.{◌≡◌, Bool, true, false, not, arith}
use olimpo.Errors.{
  AgentAuthError, EnrollmentError, Error, refused, credential, agent_auth, enrollment, telemetry,
  network,
}
use olimpo.Api.Requests.{
  Status, credential_error, agent_credential_admin_error, enrollment_admin_error,
  network_context_error, telemetry_error,
}

-- Status 500
abbrev pub is_internal : Status → Bool
is_internal Status.internal_error = true
is_internal _ = false

-- What the credential service decides on.
abbrev pub is_credential : Error → Bool
is_credential (refused (credential e)) = true
is_credential _ = false

-- What the network context service decides on.
abbrev pub is_network : Error → Bool
is_network (refused (network e)) = true
is_network _ = false

-- What the telemetry service decides on.
abbrev pub is_telemetry : Error → Bool
is_telemetry (refused (telemetry e)) = true
is_telemetry _ = false

-- What the identity service decides on for an administrator, who shows no key to it.
abbrev pub is_identity : Error → Bool
is_identity (refused (agent_auth AgentAuthError.bad_auth)) = false
is_identity (refused (agent_auth e)) = true
is_identity _ = false

-- The same of the enrollment service, which passes on what the identity service says.
abbrev pub is_enrollment : Error → Bool
is_enrollment (refused (enrollment EnrollmentError.bad_auth)) = false
is_enrollment (refused (enrollment e)) = true
is_enrollment e = is_identity e

credentials : (e : Error) → is_internal (credential_error e) ≡ not (is_credential e)
unfolding credential_error
credentials e = ground arith

networks : (e : Error) → is_internal (network_context_error e) ≡ not (is_network e)
unfolding network_context_error
networks e = ground arith

heartbeats : (e : Error) → is_internal (telemetry_error e) ≡ not (is_telemetry e)
unfolding telemetry_error
heartbeats e = ground arith

enrollments : (e : Error) → is_internal (enrollment_admin_error e) ≡ not (is_enrollment e)
unfolding enrollment_admin_error
enrollments e = ground arith

identities : (e : Error) → is_internal (agent_credential_admin_error e) ≡ not (is_identity e)
unfolding agent_credential_admin_error
identities e = ground arith

-- Of all errors, credentialError, networkContextError and telemetryError answer exactly those as an
-- internal error that their service does not decide on; agentCredentialAdminError does so for those
-- that the identity service does not decide on, and enrollmentAdminError for those that neither that
-- service nor the enrollment service decides on, where a bad authentication is no such decision.
pub errors_answered :
    (e : Error)
    → (is_internal (credential_error e) ≡ not (is_credential e))
      × (is_internal (network_context_error e) ≡ not (is_network e))
      × (is_internal (telemetry_error e) ≡ not (is_telemetry e))
      × (is_internal (enrollment_admin_error e) ≡ not (is_enrollment e))
      × (is_internal (agent_credential_admin_error e) ≡ not (is_identity e))
errors_answered e = (credentials e, networks e, heartbeats e, enrollments e, identities e)
