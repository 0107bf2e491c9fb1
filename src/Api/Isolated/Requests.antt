-- ===== src/Api/Isolated/Requests.antt =====
-- authenticateAgent and the handlers behind it: what a request of an agent can touch.
use olimpo.Common.{
  ℕ, ◌≡◌, ◌⊎◌, refl, sym, inl, inr, Bool, Option, none, some, List, Text, arith, nat_eq,
  nat_beq_iff, find_holds, update_rows-Ascending, find_unique, foreign-update_row, subst,
}
use olimpo.Errors.{Error, refused, database, entropy, Result, ok, err}
use olimpo.Gorm.{Gorm}
use olimpo.Gorm.Rules.{AtomicOutcome}
use olimpo.Model.{Database}
use olimpo.AgentAuth.{Context, authenticate, use_identity, active_identity}
use olimpo.AgentAuth.Verify.{Admitted, authenticate_Sound, bad_auth}
use olimpo.Credential.Base.{active_device}
use olimpo.Api.Requests.{bearer_token}
use olimpo.Api.Replies.{Reply, Handler, agent_unauthorized}
use olimpo.Api.Agents.{AgentRoute, agent_handler, let_in, authenticate_bearer, authenticate_agent}
use olimpo.Api.AgentRequests.{AgentValidator}
use olimpo.Api.Isolated.{HasKeys, Isolated, Isolated-trans}
use olimpo.Api.Isolated.Agents.{agent_handler-Isolated}

module _ (sum256 : List ℕ → List ℕ) (s : Database) (keys : HasKeys s) (token caller_ip : Text)
    (at : ℕ) (context : Context) (t : Database)
    (admitted : Admitted sum256 s token caller_ip at context t) where
  -- The use of the identity is noted in a row of its own device.
  admitted-Isolated : Isolated context.device.id s t
  admitted-Isolated =
      let (id, c, _, found_c, _, _, present, _, e) = admitted in
      let own : context.device.id ≡ c.device_id = ground (
        arith,
        find_holds (active_device c.device_id) s.devices context.device present,
        nat_beq_iff context.device.id c.device_id,
      ) in
      let rest =
        foreign-update_row (λ x. x.id) (λ x. x.device_id) context.device.id
          (use_identity at caller_ip) s.agent_credentials c
          (find_unique (λ x. x.id) (active_identity id) s.agent_credentials c keys.identities
            found_c)
          (sym own) (sym own) in
      subst (Isolated context.device.id s) (sym e) (ground arith)

  admitted-HasKeys : HasKeys t
  admitted-HasKeys =
      let (id, c, _, _, _, _, _, _, e) = admitted in
      subst HasKeys (sym e) record {
        identities =
            update_rows-Ascending (λ x. x.id) _ (use_identity at caller_ip) s.agent_credentials
              (λ x. refl) keys.identities;
        enrollments = keys.enrollments;
        telemetry = keys.telemetry;
        snapshots = keys.snapshots;
        rotations = keys.rotations;
      }

module _ (db : Gorm) (sum256 : List ℕ → List ℕ) (valid : AgentValidator) (is_ipv6 : Text → Bool)
    (caller_ip : Text) (at now : ℕ) (route : AgentRoute) (s : Database) where
  abbrev handler : Option Context → Handler
  handler stored = agent_handler db valid is_ipv6 caller_ip now stored route

  -- A request is turned away with the database as it was, or comes with the key of an active identity
  -- of an active device, and then no row of any other device, no host, domain or log changes.
  abbrev pub Confined : Text → Reply × Database → Type 0
  Confined authorization out =
      ((out.0 ≡ agent_unauthorized) × (out.1 ≡ s))
      ⊎ ((token : Text) × (context : Context) × (t : Database) × (bearer_token authorization
            ≡ some token)
          × Admitted sum256 s token caller_ip at context t
          × Isolated context.device.id s out.1)

  let_in-Confined :
      HasKeys s
      → (authorization token : Text) → bearer_token authorization ≡ some token
      → (r : Result Error Context × Database)
      → AtomicOutcome (Admitted sum256 s token caller_ip at) (λ e. e ≡ bad_auth) s r
      → Confined authorization (let_in handler r)
  let_in-Confined keys authorization token e (ok context, t) h = inr (
    token,
    context,
    t,
    e,
    h,
    Isolated-trans context.device.id s t _
        (admitted-Isolated sum256 s keys token caller_ip at context t h)
        (agent_handler-Isolated db valid is_ipv6 caller_ip now context t
          (admitted-HasKeys sum256 s keys token caller_ip at context t h) route),
  )
  let_in-Confined keys authorization token e (err (refused r), t) h = inl (refl, h.1)
  let_in-Confined keys authorization token e (err (database r), t) h = inl (refl, h)
  let_in-Confined keys authorization token e (err entropy, t) h = inl (refl, h)

  bearer-Confined :
      HasKeys s
      → (authorization : Text) (o : Option Text) → bearer_token authorization ≡ o
      → Confined authorization (authenticate_bearer db sum256 caller_ip at handler o s)
  unfolding authenticate_bearer
  bearer-Confined keys authorization none e = inl (refl, refl)
  bearer-Confined keys authorization (some token) e =
      let_in-Confined keys authorization token e (authenticate db sum256 token caller_ip at s)
        (authenticate_Sound db sum256 s token caller_ip at).holds

  -- Whatever a request asks of the agent routes, where primary keys rise along the tables: it is
  -- answered 401 and the database is as it was, or its bearer token is the key of an active identity
  -- that has not expired, of an active device, and in every table only rows of that device have
  -- changed, been added or been deleted, while hosts, domains and logs are as they were.
  pub agents-Confined :
      HasKeys s
      → (authorization : Text)
      → Confined authorization (authenticate_agent db sum256 caller_ip at handler authorization s)
  unfolding authenticate_agent
  agents-Confined keys authorization =
      bearer-Confined keys authorization (bearer_token authorization) refl
