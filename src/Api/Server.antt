-- ===== src/Api/Server.antt =====
-- server.go: which routes are behind which authentication, and the enrollment of an agent, which
-- comes with a token instead.
use olimpo.Common.{Bool, Option, none, some, ◌++◌, Text, if◌then◌else◌}
use olimpo.Errors.{EnrollmentError, Error, refused, enrollment, Result, ok, err}
use olimpo.Model.{Database}
use olimpo.Text.{text, is_empty}
use olimpo.Ddns.Update.{Settings}
use olimpo.Enrollment.{ExchangeResult}
use olimpo.Enrollment.Grant.{exchange}
use olimpo.Api.Requests.{Status, caller_ip, bearer_token, enrollment_admin_error}
use olimpo.Api.Replies.{Body, Reply, Handler, reply_with, answer, agent_unauthorized}
use olimpo.Api.Update.{Answer, ddns_update}
use olimpo.Api.Devices.{post_domain as store_domain, post_device as store_device}
use olimpo.Api.Agents.{agent_handler, authenticate_agent}
use olimpo.Api.Admin.{
  list_domains, list_devices, list_credentials, list_logs, list_agent_credentials,
  revoke_agent_credential, list_agent_enrollments, get_agent_enrollment, revoke_agent_enrollment,
  get_agent_status, list_agent_statuses, get_network_context, list_network_contexts,
  issue_agent_credential, create_agent_enrollment,
}
use olimpo.Api.Admin.Rotations.{
  request_credential_rotation, list_credential_rotations, get_credential_rotation,
  rollback_credential_rotation, reconcile_credential_rotations,
}
use olimpo.Api.Routes.{Server, Request, Moment, AdminRoute, Route}

-- authenticateAdmin; `none` is its error
unfoldable pub authenticate_admin :
    (Text → Option (Text → Text → Bool)) → Text → Text → Text → Option Bool
authenticate_admin htpasswd admin_login username password = elim (htpasswd admin_login) [
  | none ↦ none
  | some matches ↦ some (matches username password)
]

module _ (server : Server) (r : Request) (m : Moment) where
  open server use {db, config, sum256}

  abbrev pub request_ip : Text
  request_ip = caller_ip server.split_host config.trust_proxy_headers r.peer

  -- health
  unfoldable pub serve_health : Handler
  serve_health =
      if m.reachable
      then answer Status.success (Body.healthy server.info)
      else answer Status.unavailable Body.degraded

  abbrev pub ddns_settings : Settings
  ddns_settings = record {
    allowed_domains = config.allowed_domains;
    default_ttl = config.default_ttl;
    allow_wildcard = config.allow_wildcard;
    autocreate_policy = config.autocreate_policy;
  }

  abbrev pub as_reply : Answer × Database → Reply × Database
  as_reply (a, s) = (reply_with a.status (Body.line_of a.body), s)

  unfoldable pub serve_update : Handler
  unfolding ddns_update
  serve_update s = as_reply (
      ddns_update db sum256 server.parse_ip server.upsert ddns_settings
        record {
          fqdn = r.hostname;
          requested_ip = r.myip;
          caller_ip = request_ip;
          user_agent = r.user_agent;
          requested_at = m.requested_at;
          now = m.now;
          completed_at = m.later;
        }
        r.basic m.at m.last s)

  abbrev pub enrollment_answer : ExchangeResult → Reply
  enrollment_answer result = reply_with Status.created (
      Body.enrolled result
        record {
          username = result.device.name;
          update_path = text "/nic/update";
          allowed_domains = config.allowed_domains;
        }
        (config.api_prefix ++ text "/agent/enrollment/confirm"))

  abbrev pub answer_exchange : Result Error ExchangeResult × Database → Reply × Database
  answer_exchange (ok result, s) = (enrollment_answer result, s)
  answer_exchange (err (refused (enrollment EnrollmentError.bad_auth)), s) = (agent_unauthorized, s)
  answer_exchange (err e, s) = (reply_with (enrollment_admin_error e) (Body.error_of e), s)

  unfoldable pub exchange_bearer : Option Text → Handler
  exchange_bearer none s = (agent_unauthorized, s)
  exchange_bearer (some token) s =
      answer_exchange (exchange db sum256 token request_ip m.id_raw m.secret_raw m.now m.later s)

  -- exchangeAgentEnrollment
  unfoldable pub exchange_agent_enrollment : Handler
  unfolding exchange_bearer bearer_token
  exchange_agent_enrollment = exchange_bearer (bearer_token r.authorization)

  -- The handlers of the group of the administration.
  unfoldable pub admin_handler : AdminRoute → Handler
  unfolding list_domains list_devices list_credentials list_logs list_agent_credentials
      revoke_agent_credential list_agent_enrollments get_agent_enrollment revoke_agent_enrollment
      get_agent_status list_agent_statuses get_network_context list_network_contexts
      issue_agent_credential create_agent_enrollment request_credential_rotation
      list_credential_rotations get_credential_rotation rollback_credential_rotation
      reconcile_credential_rotations store_domain store_device
  admin_handler AdminRoute.get_domains = list_domains db
  admin_handler AdminRoute.get_devices = list_devices db
  admin_handler AdminRoute.get_logs = list_logs db server.newer
  admin_handler AdminRoute.get_agent_statuses = list_agent_statuses db m.clock
  admin_handler AdminRoute.get_network_contexts = list_network_contexts db
  admin_handler AdminRoute.post_reconcile = reconcile_credential_rotations db m.now
  admin_handler (AdminRoute.add_domain body) =
      store_domain db server.device_valid config.allowed_domains config.default_ttl body
  admin_handler (AdminRoute.add_device body) =
      store_device db server.device_valid sum256 m.id_raw m.secret_raw m.now body
  admin_handler (AdminRoute.get_credentials param) = list_credentials db server.newer param
  admin_handler (AdminRoute.get_agent_credentials param) =
      list_agent_credentials db server.newer param
  admin_handler (AdminRoute.post_agent_credential param) =
      issue_agent_credential db sum256 m.id_raw m.secret_raw m.now param
  admin_handler (AdminRoute.get_enrollments param) = list_agent_enrollments db param m.now
  admin_handler (AdminRoute.get_rotations param) = list_credential_rotations db param
  admin_handler (AdminRoute.get_status param) = get_agent_status db param m.now
  admin_handler (AdminRoute.get_context param) = get_network_context db param
  admin_handler (AdminRoute.post_agent_credential_revoke param credential) =
      revoke_agent_credential db param credential m.now
  admin_handler (AdminRoute.get_enrollment param i) = get_agent_enrollment db param i m.now
  admin_handler (AdminRoute.post_enrollment_revoke param i) =
      revoke_agent_enrollment db param i m.now m.later m.last
  admin_handler (AdminRoute.get_rotation param i) = get_credential_rotation db param i
  admin_handler (AdminRoute.post_enrollment param body) =
      create_agent_enrollment db sum256 m.id_raw m.secret_raw m.now server.enrollment_valid param
        body
  admin_handler (AdminRoute.post_rotation param body) =
      request_credential_rotation db server.rotation_valid param body m.now
  admin_handler (AdminRoute.post_rollback param i body) =
      rollback_credential_rotation db param i body m.now m.later

  -- The middleware of that group, where there is a login.
  unfoldable pub with_admin : Handler → Handler
  unfolding authenticate_admin
  with_admin h =
      if is_empty config.admin_login
      then h
      else server.basic_auth.guard (authenticate_admin server.htpasswd config.admin_login) r.basic h

  -- routes
  unfoldable pub serve : Route → Handler
  unfolding serve_health serve_update exchange_agent_enrollment admin_handler with_admin
      agent_handler authenticate_agent
  serve Route.get_health = serve_health
  serve Route.get_version = answer Status.success (Body.version server.info)
  serve Route.get_update = serve_update
  serve Route.post_enroll = exchange_agent_enrollment
  serve (Route.admin route) = with_admin (admin_handler route)
  serve (Route.agent route) =
      authenticate_agent db sum256 request_ip m.at
        (λ stored. agent_handler db server.agent_valid server.is_ipv6 request_ip m.now stored route)
        r.authorization
