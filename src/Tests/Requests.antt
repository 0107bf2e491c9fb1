-- ===== src/Tests/Requests.antt =====
-- Requests to the server at concrete values.
use olimpo.Common.{
  find, count, select, update_rows, ◌≡◌, refl, Bool, true, false, [], ◌∷◌, ◌++◌, Option, some, none,
  Text, pos, ◌==◌, text_eq,
}
use olimpo.Gorm.{◌>>=◌, first_or, update_where, first?, create_row, count_rows, newest_rows}
use olimpo.Gorm.Memory.{memory}
use olimpo.Model.{Database}
use olimpo.Text.{text, trim_space, hex_encode, hex_decode}
use olimpo.Keys.{verify_api_key, parse_key_id, after_prefix, split_dot}
use olimpo.Keys.Base64.{base64_encode, base64_decode}
use olimpo.Telemetry.{report, report_tx, apply_heartbeat}
use olimpo.Telemetry.Input.{validate_input, validate_snapshot}
use olimpo.AgentAuth.{authenticate}
use olimpo.Credential.Advance.{request_rotation, request_rotation_tx}
use olimpo.Api.Requests.{Status}
use olimpo.Api.Replies.{
  Body, Handler, reply_with, agent_unauthorized, end_of_file, parse_uint_param,
}
use olimpo.Api.Agents.{AgentRoute, agent_handler, authenticate_agent}
use olimpo.Api.AgentRequests.{AgentValidator}
use olimpo.Api.Isolated.{HasKeys}
use olimpo.Api.Isolated.Requests.{Confined, agents-Confined}
use olimpo.Api.Server.{serve}
use olimpo.Api.Routes.{BasicAuth, Server, Request, Moment, Route, AdminRoute}
use olimpo.Api.Permitted.{Accounted, Permitted, serve-Accounted}
use olimpo.Tests.Sample.{sample, router}
use olimpo.Tests.Tokens.{digest, agent_key, identity}

param_read : parse_uint_param (text "18446744073709551615") ≡ some 18446744073709551615
unfolding parse_uint_param
param_read = refl

param_too_large : parse_uint_param (text "18446744073709551616") ≡ none
unfolding parse_uint_param
param_too_large = refl

param_signed : parse_uint_param (text "+1") ≡ none
unfolding parse_uint_param
param_signed = refl

-- Two devices, and the identity of the first.
abbrev fleet : Database
fleet = record sample {
  devices = router ∷ record router { id = 8; name = text "udm-8" } ∷ [];
  agent_credentials = identity ∷ [];
}

fleet-HasKeys : HasKeys fleet
fleet-HasKeys = record {
  identities = (tt, tt);
  enrollments = tt;
  telemetry = tt;
  snapshots = tt;
  rotations = tt;
}

abbrev agent_valid : AgentValidator
agent_valid = record {
  on_stage = λ r. none;
  on_confirm = λ r. none;
  on_heartbeat = λ r. none;
  on_network_context = λ r. none;
}

abbrev heartbeat : AgentRoute
heartbeat = AgentRoute.post_heartbeat (end_of_file [])

abbrev bearer : Text
bearer = text "Bearer " ++ agent_key

agents-Confined_example :
    Confined memory digest agent_valid
      (λ s. false)
      (text "192.0.2.1")
      300
      400
      heartbeat
      fleet
      bearer
      (authenticate_agent memory digest
        (text "192.0.2.1")
        300
        (λ stored.
          agent_handler memory agent_valid (λ s. false) (text "192.0.2.1") 400 stored heartbeat)
        bearer
        fleet)
agents-Confined_example =
    agents-Confined memory digest agent_valid (λ s. false) (text "192.0.2.1") 300 400 heartbeat
      fleet fleet-HasKeys bearer

basic_guard : (Text → Text → Option Bool) → Option (Text × Text) → Handler → Handler
basic_guard validator none h s = (agent_unauthorized, s)
basic_guard validator (some (u, p)) h s = elim (validator u p) [
  | none ↦ (reply_with Status.internal_error Body.empty, s)
  | some true ↦ h s
  | some false ↦ (agent_unauthorized, s)
]

abbrev basic : BasicAuth
unfolding basic_guard
basic = record {
  guard = basic_guard;
  missing_law = λ v h s. (refl, refl);
  accepted_law = λ v u p h s e. rw (e, basic_guard) refl;
  rejected_law = λ v u p h s e. rw (e, basic_guard) (refl, refl);
  failed_law = λ v u p h s e. rw (e, basic_guard) refl;
}

abbrev server : Server
server = record {
  db = memory;
  config = record {
    listen_address = text ":8080";
    database_path = [];
    admin_login = text "root:secret";
    allowed_domains = text "example.org" ∷ [];
    default_ttl = pos 300;
    allow_wildcard = false;
    trust_proxy_headers = false;
    allow_insecure_admin = false;
    autocreate_policy = text "device-prefix";
    dns_server = [];
    nsupdate_binary = [];
    tsig_key_file = [];
    api_prefix = text "/api/v1";
  };
  info = record { product = text "HermesDDNS"; version = text "dev"; commit = []; build_time = [] };
  basic_auth = basic;
  htpasswd = λ login. some (λ u p. u ++ b':' ∷ p == login);
  sum256 = digest;
  split_host = λ s. none;
  parse_ip = λ s. some (true, s);
  is_ipv6 = λ s. false;
  upsert = λ a b c d e f. none;
  newer = record { ddns_credential = λ a b. false; identity = λ a b. false; log = λ a b. false };
  agent_valid = agent_valid;
  device_valid = record { device = λ r. none; domain = λ r. none };
  rotation_valid = λ r. none;
  enrollment_valid = λ r. none;
}

abbrev stranger : Request
stranger = record {
  peer = record { x_real_ip = []; x_forwarded_for = []; remote_addr = text "192.0.2.1" };
  authorization = [];
  basic = some (text "root", text "guess");
  hostname = [];
  myip = [];
  user_agent = [];
}

abbrev moment : Moment
moment = record {
  at = 300;
  requested_at = 300;
  now = 400;
  later = 500;
  last = 600;
  clock = λ n. 700;
  id_raw = none;
  secret_raw = none;
  reachable = true;
}

abbrev rotate : Route
rotate = Route.admin (AdminRoute.post_rotation (text "7") (end_of_file []))

serve-Accounted_example :
    Accounted server stranger moment fleet
      (Permitted server stranger moment fleet rotate)
      (serve server stranger moment rotate fleet)
serve-Accounted_example = serve-Accounted server stranger moment fleet rotate

abbrev owner : Request
owner = record stranger { basic = some (text "root", text "secret") }

wrong_password : (serve server stranger moment rotate fleet).0.status ≡ Status.unauthorized
unfolding serve basic
wrong_password = refl

right_password : (serve server owner moment rotate fleet).0.status ≡ Status.created
unfolding serve basic request_rotation request_rotation_tx ◌>>=◌ first_or find count_rows count
    newest_rows select create_row
right_password = refl

agent_call :
    (serve server
      (record stranger { authorization = bearer })
      moment
      (Route.agent heartbeat)
      fleet).0.status
    ≡ Status.success
unfolding serve authenticate verify_api_key ◌>>=◌ first_or find update_where update_rows report
    first? create_row trim_space hex_encode base64_encode parse_key_id after_prefix split_dot
    hex_decode base64_decode validate_input report_tx validate_snapshot apply_heartbeat
agent_call = refl
