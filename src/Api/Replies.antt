-- ===== src/Api/Replies.antt =====
-- What the handlers share: parseUintParam of credential_routes.go, the answers, and what echo makes of
-- a request's body. Binding and validating a body is echo's and its validator's: what they return is
-- given.
use olimpo.Common.{ℕ, ◌^◌, Option, none, some, List, [], ◌∷◌, ltb, Text, if◌then◌else◌}
use olimpo.Errors.{Error, Result, ok, err}
use olimpo.Model.{
  Database, Device, Domain, DdnsCredential, DdnsCredentialRotation, DeviceIdentityCredential,
  AgentEnrollment, AgentTelemetrySnapshot, UpdateLog,
}
use olimpo.Text.{text}
use olimpo.AgentAuth.{Context}
use olimpo.Enrollment.{ExchangeResult}
use olimpo.Telemetry.Input.{AgentStatus}
use olimpo.Network.Input.{decimal}
use olimpo.Network.Report.{DeviceNetworkContext}
use olimpo.Api.Requests.{Status}

abbrev pub below_2_64 : Option ℕ → Option ℕ
below_2_64 none = none
below_2_64 (some n) = if ltb n (2 ^ 64) then some n else none

-- parseUintParam, which is strconv.ParseUint with base 10 and 64 bits
unfoldable pub parse_uint_param : Text → Option ℕ
unfolding decimal
parse_uint_param [] = none
parse_uint_param (c ∷ s) = below_2_64 (decimal 0 (c ∷ s))

-- Info of buildinfo.go
pub record Info : Type 0 where
  pub product : Text
  pub version : Text
  pub commit : Text
  pub build_time : Text

-- enrollmentDDNSConfiguration
pub record DdnsConfiguration : Type 0 where
  pub username : Text
  pub update_path : Text
  pub allowed_domains : List Text

-- The bodies of the answers, one constructor for each shape; the fixed warnings are left out.
pub data Body : Type 0 where
  empty : Body
  line_of : Text → Body
  error_text : Text → Body
  error_of : Error → Body
  message : Text → Body
  degraded : Body
  healthy : Info → Body
  version : Info → Body
  domain : Domain → Body
  domains : List Domain → Body
  devices : List Device → Body
  device_created : Device → Text → Body
  ddns_credentials : List DdnsCredential → Body
  logs : List UpdateLog → Body
  identity : Device → DeviceIdentityCredential → Body
  identities : List DeviceIdentityCredential → Body
  identity_issued : DeviceIdentityCredential → Text → Body
  enrollment : AgentEnrollment → Body
  enrollments : List AgentEnrollment → Body
  enrollment_created : AgentEnrollment → Text → Body
  enrollment_step : AgentEnrollment → Text → Body
  enrolled : ExchangeResult → DdnsConfiguration → Text → Body
  rotation : DdnsCredentialRotation → Body
  rotations : List DdnsCredentialRotation → Body
  rotation_step : DdnsCredentialRotation → Text → Body
  completed : ℕ → Body
  candidate_step : DdnsCredential → Text → Body
  heartbeat : ℕ → ℕ → ℕ → ℕ → AgentTelemetrySnapshot → Body
  status_of : AgentStatus → Body
  status_list : List AgentStatus → Body
  context_of : DeviceNetworkContext → Body
  context_list : List DeviceNetworkContext → Body

pub record Reply : Type 0 where
  pub status : Status
  pub body : Body

abbrev pub Handler : Type 0
Handler = Database → Reply × Database

abbrev pub reply_with : Status → Body → Reply
reply_with code body = record { status = code; body = body }

abbrev pub answer : Status → Body → Handler
answer code body s = (reply_with code body, s)

abbrev pub bad_request : Text → Handler
bad_request reason = answer Status.bad_request (Body.error_text reason)

-- agentUnauthorized and enrollmentUnauthorized
abbrev pub agent_unauthorized : Reply
agent_unauthorized = reply_with Status.unauthorized (Body.error_text (text "badauth"))

-- What a method returns, with the status of its error.
abbrev pub respond :
    {A : Type 0} → (A → Reply) → (Error → Status) → Result Error A × Database → Reply × Database
respond good code_of (ok a, s) = (good a, s)
respond good code_of (err e, s) = (reply_with (code_of e) (Body.error_of e), s)

-- What `c.Bind` returns: io.EOF, another error, or the request.
pub data Bound (R : Type 0) : Type 0 where
  end_of_file : Text → Bound R
  malformed : Text → Bound R
  bound : R → Bound R

-- `c.Validate`: the error, if there is one
abbrev pub validated : Option Text → Handler → Handler
validated none h = h
validated (some reason) h = bad_request reason

-- A body that must be there.
unfoldable pub with_body : {R : Type 0} → (R → Option Text) → Bound R → (R → Handler) → Handler
with_body valid (end_of_file reason) h = bad_request reason
with_body valid (malformed reason) h = bad_request reason
with_body valid (bound r) h = validated (valid r) (h r)

-- A body that may be left out: the request keeps its zero value then.
unfoldable pub with_optional_body :
    {R : Type 0} → R → (R → Option Text) → Bound R → (R → Handler) → Handler
with_optional_body zero_value valid (end_of_file reason) h =
    validated (valid zero_value) (h zero_value)
with_optional_body zero_value valid (malformed reason) h = bad_request reason
with_optional_body zero_value valid (bound r) h = validated (valid r) (h r)

abbrev pub with_id : Option ℕ → Text → (ℕ → Handler) → Handler
with_id none reason h = bad_request reason
with_id (some i) reason h = h i

-- A parameter of the path.
unfoldable pub with_param : Text → Text → (ℕ → Handler) → Handler
unfolding parse_uint_param
with_param param reason h = with_id (parse_uint_param param) reason h

-- agentContext: what the middleware has stored
unfoldable pub with_context : Option Context → (Context → Handler) → Handler
with_context none h = λ s. (agent_unauthorized, s)
with_context (some auth) h = h auth
