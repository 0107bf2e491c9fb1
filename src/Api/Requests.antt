-- ===== src/Api/Requests.antt =====
-- What the handlers of package api read from a request, and the status codes of errors: callerIP and
-- contains of server.go, bearerToken, agentCredentialAdminError and agentRotationNextAction of
-- agent_routes.go, credentialError of credential_routes.go, enrollmentAdminError of
-- enrollment_routes.go, networkContextError and telemetryError.
use olimpo.Common.{
  ℕ, Bool, true, false, not, ◌||◌, Option, none, some, List, [], ◌∷◌, ◌==◌, nat_eq, text_eq, Text,
  if◌then◌else◌,
}
use olimpo.Errors.{
  CredentialError, AgentAuthError, EnrollmentError, Error, refused, credential, agent_auth,
  enrollment, telemetry, network, NetworkError, TelemetryError,
}
use olimpo.Model.{RotationStatus}
use olimpo.Text.{text, trim_space, to_lower, is_empty, is_space}

-- The headers and the peer of a request.
pub record Peer : Type 0 where
  pub x_real_ip : Text
  pub x_forwarded_for : Text
  pub remote_addr : Text

-- strings.Split(xff, ",")[0]
unfoldable pub before_comma : Text → Text
before_comma [] = []
before_comma (c ∷ s) = let rest = before_comma s in if c == b',' then [] else c ∷ rest

abbrev pub or_remote : Text → Option Text → Text
or_remote remote none = remote
or_remote remote (some host) = host

-- callerIP; `split_host` is the host that net.SplitHostPort finds, if it finds one
unfoldable pub caller_ip : (Text → Option Text) → Bool → Peer → Text
unfolding before_comma
caller_ip split_host trust_proxy_headers peer =
    let xri = trim_space peer.x_real_ip in
    let xff = trim_space peer.x_forwarded_for in
    let direct = or_remote peer.remote_addr (split_host peer.remote_addr) in
    if not trust_proxy_headers
    then direct
    else if not (is_empty xri)
    then xri
    else if not (is_empty xff)
    then trim_space (before_comma xff)
    else direct

-- strings.EqualFold, on ASCII
abbrev pub equal_fold : Text → Text → Bool
equal_fold s t = to_lower s == to_lower t

-- contains
unfoldable pub lists_item : List Text → Text → Bool
lists_item [] target = false
lists_item (item ∷ items) target = equal_fold item target || lists_item items target

-- strings.Fields
abbrev pub onto_field : ℕ → List Text → List Text
onto_field c [] = (c ∷ []) ∷ []
onto_field c (f ∷ fs) = (c ∷ f) ∷ fs

abbrev pub starts_blank : Text → Bool
starts_blank [] = true
starts_blank (c ∷ s) = is_space c

unfoldable pub fields : Text → List Text
unfolding is_space
fields [] = []
fields (c ∷ s) =
    let rest = fields s in
    if is_space c then rest else if starts_blank s then (c ∷ []) ∷ rest else onto_field c rest

abbrev pub bearer_of : List Text → Option Text
bearer_of (scheme ∷ token ∷ []) = if equal_fold scheme (text "Bearer") then some token else none
bearer_of _ = none

-- bearerToken
unfoldable pub bearer_token : Text → Option Text
unfolding fields
bearer_token header = bearer_of (fields (trim_space header))

-- The status codes of net/http that are used.
pub data Status : Type 0 where
  created bad_request unauthorized not_found conflict unavailable : Status
  success no_content internal_error : Status

-- credentialError
unfoldable pub credential_error : Error → Status
credential_error (refused (credential CredentialError.device_not_found)) = Status.not_found
credential_error (refused (credential CredentialError.rotation_not_found)) = Status.not_found
credential_error (refused (credential CredentialError.invalid_grace_period)) = Status.bad_request
credential_error (refused (credential CredentialError.invalid_candidate_key_id)) =
    Status.bad_request
credential_error (refused (credential CredentialError.invalid_candidate_hash)) = Status.bad_request
credential_error (refused (credential CredentialError.no_active_credential)) = Status.conflict
credential_error (refused (credential CredentialError.multiple_active)) = Status.conflict
credential_error (refused (credential CredentialError.rotation_in_progress)) = Status.conflict
credential_error (refused (credential CredentialError.invalid_rotation_state)) = Status.conflict
credential_error _ = Status.internal_error

-- agentCredentialAdminError
unfoldable pub agent_credential_admin_error : Error → Status
agent_credential_admin_error (refused (agent_auth AgentAuthError.device_not_found)) =
    Status.not_found
agent_credential_admin_error (refused (agent_auth AgentAuthError.credential_not_found)) =
    Status.not_found
agent_credential_admin_error (refused (agent_auth AgentAuthError.active_credential_exists)) =
    Status.conflict
agent_credential_admin_error _ = Status.internal_error

-- enrollmentAdminError
unfoldable pub enrollment_admin_error : Error → Status
enrollment_admin_error (refused (enrollment EnrollmentError.device_not_found)) = Status.not_found
enrollment_admin_error (refused (enrollment EnrollmentError.enrollment_not_found)) =
    Status.not_found
enrollment_admin_error (refused (agent_auth AgentAuthError.device_not_found)) = Status.not_found
enrollment_admin_error (refused (enrollment EnrollmentError.invalid_ttl)) = Status.bad_request
enrollment_admin_error (refused (enrollment EnrollmentError.enrollment_in_progress)) =
    Status.conflict
enrollment_admin_error (refused (enrollment EnrollmentError.invalid_state)) = Status.conflict
enrollment_admin_error (refused (agent_auth AgentAuthError.active_credential_exists)) =
    Status.conflict
enrollment_admin_error (refused (agent_auth AgentAuthError.credential_not_found)) = Status.conflict
enrollment_admin_error _ = Status.internal_error

-- networkContextError
unfoldable pub network_context_error : Error → Status
network_context_error (refused (network NetworkError.device_not_found)) = Status.not_found
network_context_error (refused (network e)) = Status.bad_request
network_context_error _ = Status.internal_error

-- telemetryError
unfoldable pub telemetry_error : Error → Status
telemetry_error (refused (telemetry TelemetryError.device_not_found)) = Status.not_found
telemetry_error (refused (telemetry e)) = Status.bad_request
telemetry_error _ = Status.internal_error

-- agentRotationNextAction
unfoldable pub agent_rotation_next_action : RotationStatus → Text
agent_rotation_next_action RotationStatus.requested = text "generate_and_stage_candidate"
agent_rotation_next_action RotationStatus.staged = text "install_candidate_then_start_validation"
agent_rotation_next_action RotationStatus.validating = text "perform_ddns_update_with_candidate"
agent_rotation_next_action RotationStatus.grace = text "keep_candidate_active_until_grace_completes"
agent_rotation_next_action _ = text "none"
