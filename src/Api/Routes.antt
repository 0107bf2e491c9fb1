-- ===== src/Api/Routes.antt =====
-- server.go: the server, its routes and what a request carries. Echo's choice of a route by the path
-- is left out: a request is given with its route, its parameters and what echo makes of its body.
use olimpo.Common.{ℕ, ◌≡◌, Bool, true, false, Option, none, some, List, Text, ℤ}
use olimpo.Gorm.{Gorm}
use olimpo.Model.{Database}
use olimpo.Config.{Config}
use olimpo.Api.Requests.{Status, Peer}
use olimpo.Api.Replies.{Info, Handler, Bound}
use olimpo.Api.Devices.{DeviceRequest, DomainRequest, DeviceValidator}
use olimpo.Api.Agents.{AgentRoute}
use olimpo.Api.AgentRequests.{AgentValidator}
use olimpo.Api.Admin.{Newer, EnrollmentRequest}
use olimpo.Api.Admin.Rotations.{RotationRequest, RollbackRequest}

-- echo's middleware.BasicAuth, given the validator, which may fail, and the request's credentials
pub record BasicAuth : Type 0 where
  pub guard : (Text → Text → Option Bool) → Option (Text × Text) → Handler → Handler
  pub missing_law :
      (validator : Text → Text → Option Bool) (h : Handler) (s : Database)
      → ((guard validator none h s).0.status ≡ Status.unauthorized)
        × ((guard validator none h s).1 ≡ s)
  pub accepted_law :
      (validator : Text → Text → Option Bool) (username password : Text) (h : Handler)
      (s : Database)
      → validator username password ≡ some true
      → guard validator (some (username, password)) h s ≡ h s
  pub rejected_law :
      (validator : Text → Text → Option Bool) (username password : Text) (h : Handler)
      (s : Database)
      → validator username password ≡ some false
      → ((guard validator (some (username, password)) h s).0.status ≡ Status.unauthorized)
        × ((guard validator (some (username, password)) h s).1 ≡ s)
  pub failed_law :
      (validator : Text → Text → Option Bool) (username password : Text) (h : Handler)
      (s : Database)
      → validator username password ≡ none
      → (guard validator (some (username, password)) h s).1 ≡ s

-- Server, with what it is built of: `htpasswd` is htpasswd.NewFromReader with Match.
pub record Server : Type 1 where
  pub db : Gorm
  pub config : Config
  pub info : Info
  pub basic_auth : BasicAuth
  pub htpasswd : Text → Option (Text → Text → Bool)
  pub sum256 : List ℕ → List ℕ
  pub split_host : Text → Option Text
  pub parse_ip : Text → Option (Bool × Text)
  pub is_ipv6 : Text → Bool
  pub upsert : Text → Text → Text → Text → ℤ → Bool → Option Text
  pub newer : Newer
  pub agent_valid : AgentValidator
  pub device_valid : DeviceValidator
  pub rotation_valid : RotationRequest → Option Text
  pub enrollment_valid : EnrollmentRequest → Option Text

-- What a request carries beside its route: `basic` is r.BasicAuth().
pub record Request : Type 0 where
  pub peer : Peer
  pub authorization : Text
  pub basic : Option (Text × Text)
  pub hostname : Text
  pub myip : Text
  pub user_agent : Text

-- What is read while it is served: the clock, in the order of the reads, the random bytes, and
-- whether the database answers a ping.
pub record Moment : Type 0 where
  pub at : ℕ
  pub requested_at : ℕ
  pub now : ℕ
  pub later : ℕ
  pub last : ℕ
  pub clock : ℕ → ℕ
  pub id_raw : Option (List ℕ)
  pub secret_raw : Option (List ℕ)
  pub reachable : Bool

pub data AdminRoute : Type 0 where
  get_domains get_devices get_logs get_agent_statuses get_network_contexts post_reconcile :
      AdminRoute
  add_domain : Bound DomainRequest → AdminRoute
  add_device : Bound DeviceRequest → AdminRoute
  get_credentials get_agent_credentials post_agent_credential : Text → AdminRoute
  get_enrollments get_rotations get_status get_context : Text → AdminRoute
  post_agent_credential_revoke get_enrollment post_enrollment_revoke get_rotation :
      Text → Text → AdminRoute
  post_enrollment : Text → Bound EnrollmentRequest → AdminRoute
  post_rotation : Text → Bound RotationRequest → AdminRoute
  post_rollback : Text → Text → Bound RollbackRequest → AdminRoute

pub data Route : Type 0 where
  get_health get_version get_update post_enroll : Route
  admin : AdminRoute → Route
  agent : AgentRoute → Route
