-- ===== src/Api/Agents.antt =====
-- The handlers behind authenticateAgent: agent_routes.go, and those of telemetry_routes.go,
-- network_context_routes.go and enrollment_routes.go that an agent calls. Each is given what the
-- middleware stored, and the device is always the one of that context.
use olimpo.Common.{ℕ, Bool, Option, none, some, List, Text}
use olimpo.Errors.{Error, Result, ok, err}
use olimpo.Gorm.{Gorm}
use olimpo.Model.{Database, DdnsCredentialRotation, AgentTelemetrySnapshot}
use olimpo.Text.{text}
use olimpo.AgentAuth.{Context, authenticate}
use olimpo.Credential.Advance.{current_rotation, stage_candidate, start_validation}
use olimpo.Enrollment.{confirm_enrollment}
use olimpo.Telemetry.{report}
use olimpo.Telemetry.Input.{online_threshold_seconds}
use olimpo.Network.Report.{report_network}
use olimpo.Api.Requests.{
  Status, bearer_token, credential_error, enrollment_admin_error, network_context_error,
  telemetry_error, agent_rotation_next_action,
}
use olimpo.Api.Replies.{
  Body, Reply, Handler, reply_with, respond, agent_unauthorized, Bound, with_body,
  with_optional_body, with_param, with_context,
}
use olimpo.Api.AgentRequests.{
  StageRequest, ConfirmRequest, HeartbeatRequest, NetworkContextRequest, AgentValidator, no_confirm,
  no_heartbeat, heartbeat_input, wan_inputs, segment_inputs,
}

-- DefaultHeartbeatIntervalSeconds
abbrev pub heartbeat_interval_seconds : ℕ
heartbeat_interval_seconds = 60

abbrev pub heartbeat_noted : ℕ → AgentTelemetrySnapshot → Reply
heartbeat_noted device_id snapshot = reply_with Status.success (
    Body.heartbeat device_id snapshot.last_heartbeat_at heartbeat_interval_seconds
      online_threshold_seconds snapshot)

abbrev pub current_found : Option DdnsCredentialRotation → Reply
current_found none = reply_with Status.no_content Body.empty
current_found (some r) =
    reply_with Status.success (Body.rotation_step r (agent_rotation_next_action r.status))

-- The routes of the group, with their parameters and bodies.
pub data AgentRoute : Type 0 where
  get_me get_current_rotation : AgentRoute
  post_heartbeat : Bound HeartbeatRequest → AgentRoute
  post_network_context : Bound NetworkContextRequest → AgentRoute
  post_confirmation : Bound ConfirmRequest → AgentRoute
  post_candidate : Text → Bound StageRequest → AgentRoute
  post_start : Text → AgentRoute

-- agentMe
unfoldable pub agent_me : Option Context → Handler
unfolding with_context
agent_me stored =
    with_context stored
      λ auth s. (reply_with Status.success (Body.identity auth.device auth.credential), s)

module _ (db : Gorm) (valid : AgentValidator) (is_ipv6 : Text → Bool) (caller_ip : Text) (now : ℕ)
    (stored : Option Context) where
  -- agentHeartbeat
  unfoldable pub agent_heartbeat : Bound HeartbeatRequest → Handler
  unfolding with_context with_optional_body heartbeat_input
  agent_heartbeat body = with_context stored λ auth.
      with_optional_body no_heartbeat valid.on_heartbeat body λ req s.
        respond (heartbeat_noted auth.device.id) telemetry_error
          (report db auth.device.id caller_ip (heartbeat_input req) now s)

  -- agentNetworkContext
  unfoldable pub agent_network_context : Bound NetworkContextRequest → Handler
  unfolding with_context with_body wan_inputs segment_inputs
  agent_network_context body = with_context stored λ auth.
      with_body valid.on_network_context body λ req s.
        respond (λ c. reply_with Status.success (Body.context_of c)) network_context_error
          (report_network db is_ipv6 auth.device.id caller_ip
            record { wans = wan_inputs req.wans; networks = segment_inputs req.networks } now s)

  -- confirmAgentEnrollment
  unfoldable pub confirm_agent_enrollment : Bound ConfirmRequest → Handler
  unfolding with_context with_optional_body
  confirm_agent_enrollment body = with_context stored λ auth.
      with_optional_body no_confirm valid.on_confirm body λ req s.
        respond
          (λ e. reply_with Status.success (Body.enrollment_step e (text "enrollment_complete")))
          enrollment_admin_error
          (confirm_enrollment db auth.device.id auth.credential.id caller_ip req.agent_version now
            s)

  -- agentCurrentRotation
  unfoldable pub agent_current_rotation : Handler
  unfolding with_context
  agent_current_rotation =
      with_context stored
        λ auth s. respond current_found credential_error (current_rotation db auth.device.id s)

  -- agentStageCandidate
  unfoldable pub agent_stage_candidate : Text → Bound StageRequest → Handler
  unfolding with_context with_param with_body
  agent_stage_candidate param body = with_context stored λ auth.
      with_param param (text "invalid rotation id") λ rotation_id.
        with_body valid.on_stage body λ req s.
          respond
            (λ c.
              reply_with Status.created
                (Body.candidate_step c (text "install_candidate_then_start_validation")))
            credential_error
            (stage_candidate db rotation_id auth.device.id req.key_id req.secret_hash now s)

  -- agentStartValidation
  unfoldable pub agent_start_validation : Text → Handler
  unfolding with_context with_param
  agent_start_validation param = with_context stored λ auth.
      with_param param (text "invalid rotation id") λ rotation_id s.
        respond
          (λ r.
            reply_with Status.success
              (Body.rotation_step r (text "perform_ddns_update_with_candidate")))
          credential_error (start_validation db rotation_id auth.device.id now s)

  -- The handlers of the routes.
  unfoldable pub agent_handler : AgentRoute → Handler
  unfolding agent_me agent_heartbeat agent_network_context confirm_agent_enrollment
      agent_current_rotation agent_stage_candidate agent_start_validation
  agent_handler AgentRoute.get_me = agent_me stored
  agent_handler (AgentRoute.post_heartbeat body) = agent_heartbeat body
  agent_handler (AgentRoute.post_network_context body) = agent_network_context body
  agent_handler (AgentRoute.post_confirmation body) = confirm_agent_enrollment body
  agent_handler AgentRoute.get_current_rotation = agent_current_rotation
  agent_handler (AgentRoute.post_candidate param body) = agent_stage_candidate param body
  agent_handler (AgentRoute.post_start param) = agent_start_validation param

-- The end of the middleware, at what Authenticate returned.
abbrev pub let_in : (Option Context → Handler) → Result Error Context × Database → Reply × Database
let_in next (ok auth, s) = next (some auth) s
let_in next (err e, s) = (agent_unauthorized, s)

module _ (db : Gorm) (sum256 : List ℕ → List ℕ) (caller_ip : Text) (at : ℕ)
    (next : Option Context → Handler) where
  unfoldable pub authenticate_bearer : Option Text → Handler
  authenticate_bearer none s = (agent_unauthorized, s)
  authenticate_bearer (some token) s = let_in next (authenticate db sum256 token caller_ip at s)

  -- authenticateAgent
  unfoldable pub authenticate_agent : Text → Handler
  unfolding authenticate_bearer bearer_token
  authenticate_agent authorization = authenticate_bearer (bearer_token authorization)
