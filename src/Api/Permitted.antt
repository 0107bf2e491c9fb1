-- ===== src/Api/Permitted.antt =====
-- The whole server: what a request must show for the database to change.
use olimpo.Common.{
  ◌≡◌, ◌⊎◌, refl, ◌∙◌, subst, inl, inr, Bool, true, false, Option, none, some, Text, arith,
  Bool-cases,
}
use olimpo.Errors.{EnrollmentError, Error, refused, enrollment, database, entropy, Result, ok, err}
use olimpo.Gorm.Rules.{AtomicOutcome}
use olimpo.Model.{Database}
use olimpo.Text.{is_empty}
use olimpo.AgentAuth.{Context, authenticate}
use olimpo.AgentAuth.Verify.{Admitted, authenticate_Sound, bad_auth}
use olimpo.Ddns.{AuthContext, ddns_bad_auth, authenticate_update}
use olimpo.Ddns.Update.{UpdateRequest}
use olimpo.Ddns.Verify.{UpdaterAdmitted, authenticate_update_Sound}
use olimpo.Enrollment.{ExchangeResult}
use olimpo.Enrollment.Tokens.{TokenShown, exchange-Shown}
use olimpo.Api.Requests.{bearer_token}
use olimpo.Api.Replies.{Reply, Handler}
use olimpo.Api.Update.{answer_caller, ddns_update}
use olimpo.Api.Agents.{agent_handler, let_in, authenticate_bearer, authenticate_agent}
use olimpo.Api.Server.{
  request_ip, ddns_settings, as_reply, serve_health, serve_update, answer_exchange, exchange_bearer,
  exchange_agent_enrollment, admin_handler, with_admin, authenticate_admin, serve,
}
use olimpo.Api.Routes.{Server, Request, Moment, Route}

module _ (server : Server) (r : Request) (m : Moment) (s : Database) where
  open server use {db, config, sum256}

  abbrev caller : Text
  caller = request_ip server r m

  -- What lets a request change the database: on the route of the updates, the name of an active
  -- device with one of its keys that is in use; for an enrollment, the token of a pending one, of the stored digest; on the
  -- routes of the administration, that no login is set, or the login's user and password; on those of
  -- the agents, the key of an active identity of an active device.
  abbrev pub Permitted : Route → Type 0
  Permitted Route.get_health = ⊥
  Permitted Route.get_version = ⊥
  Permitted Route.get_update =
      (username : Text) × (password : Text) × (auth : AuthContext) × (t : Database) × (r.basic
        ≡ some (username, password))
      × UpdaterAdmitted sum256 s username password caller m.at auth t
  Permitted Route.post_enroll =
      (token : Text) × (bearer_token r.authorization ≡ some token) × TokenShown sum256 s token
  Permitted (Route.admin route) =
      (is_empty config.admin_login ≡ true)
      ⊎ ((username : Text) × (password : Text) × (r.basic ≡ some (username, password))
          × (authenticate_admin server.htpasswd config.admin_login username password ≡ some true))
  Permitted (Route.agent route) =
      (token : Text) × (context : Context) × (t : Database) × (bearer_token r.authorization
        ≡ some token)
      × Admitted sum256 s token caller m.at context t

  -- The database is as it was, or the request was permitted.
  abbrev pub Accounted : Type 0 → Reply × Database → Type 0
  Accounted P out = (out.1 ≡ s) ⊎ P

  health-same : (serve_health server r m s).1 ≡ s
  unfolding serve_health
  health-same = elim (Bool-cases m.reachable) [ inl t ↦ rw t refl | inr t ↦ rw t refl ]

  update_called :
      (u : UpdateRequest) (username password : Text)
      → u.caller_ip ≡ caller
      → r.basic ≡ some (username, password)
      → (o : Result Error AuthContext × Database)
      → AtomicOutcome
          (UpdaterAdmitted sum256 s username password caller m.at)
          (λ e. e ≡ ddns_bad_auth)
          s
          o
      → Accounted (Permitted Route.get_update) (
          as_reply server r m (
            answer_caller db sum256 server.parse_ip server.upsert
              (ddns_settings server r m)
              u
              m.last
              o))
  unfolding answer_caller
  update_called u username password c e (ok auth, t) h = inr (username, password, auth, t, e, h)
  update_called u username password c e (err (refused x), t) h = inl h.1
  update_called u username password c e (err (database x), t) h = inl h
  update_called u username password c e (err entropy, t) h = inl h

  update_basic :
      (u : UpdateRequest) (o : Option (Text × Text))
      → u.caller_ip ≡ caller
      → r.basic ≡ o
      → Accounted (Permitted Route.get_update) (
          as_reply server r m (
            ddns_update db sum256 server.parse_ip server.upsert
              (ddns_settings server r m)
              u
              o
              m.at
              m.last
              s))
  unfolding ddns_update
  update_basic u none c e = inl refl
  update_basic u (some (username, password)) c e =
      update_called u username password c e
        (authenticate_update db sum256 username password u.caller_ip m.at s)
        (subst
          (λ i.
            AtomicOutcome (UpdaterAdmitted sum256 s username password i m.at)
              (λ e. e ≡ ddns_bad_auth) s
              (authenticate_update db sum256 username password u.caller_ip m.at s))
          c (authenticate_update_Sound db sum256 s username password u.caller_ip m.at).holds)

  answer_exchange-same :
      (o : Result Error ExchangeResult × Database) → (answer_exchange server r m o).1 ≡ o.1
  answer_exchange-same (ok result, t) = refl
  answer_exchange-same (err (refused (enrollment EnrollmentError.bad_auth)), t) = refl
  answer_exchange-same (err e, t) = ground arith

  exchange_given :
      (o : Option Text)
      → bearer_token r.authorization ≡ o
      → Accounted (Permitted Route.post_enroll) (exchange_bearer server r m o s)
  unfolding exchange_bearer
  exchange_given none e = inl refl
  exchange_given (some token) e =
      elim (exchange-Shown db sum256 s token caller m.id_raw m.secret_raw m.now m.later) [
        | inl same ↦ inl (answer_exchange-same _ ∙ same)
        | inr shown ↦ inr (token, e, shown)
      ]

  validator_says :
      (h : Handler) (username password : Text) (o : Option Bool)
      → r.basic ≡ some (username, password)
      → authenticate_admin server.htpasswd config.admin_login username password ≡ o
      → ((server.basic_auth.guard
            (authenticate_admin server.htpasswd config.admin_login)
            (some (username, password))
            h
            s).1
          ≡ s)
        ⊎ ((u : Text) × (p : Text) × (r.basic ≡ some (u, p))
            × (authenticate_admin server.htpasswd config.admin_login u p ≡ some true))
  validator_says h username password none e v =
      inl (server.basic_auth.failed_law _ username password h s v)
  validator_says h username password (some false) e v =
      inl (server.basic_auth.rejected_law _ username password h s v).1
  validator_says h username password (some true) e v = inr (username, password, e, v)

  guard_called :
      (h : Handler) (o : Option (Text × Text))
      → r.basic ≡ o
      → ((server.basic_auth.guard (authenticate_admin server.htpasswd config.admin_login) o h s).1
          ≡ s)
        ⊎ ((u : Text) × (p : Text) × (r.basic ≡ some (u, p))
            × (authenticate_admin server.htpasswd config.admin_login u p ≡ some true))
  guard_called h none e = inl (server.basic_auth.missing_law _ h s).1
  guard_called h (some (username, password)) e = validator_says h username password _ e refl

  guarded_called :
      (h : Handler) (b : Bool)
      → is_empty config.admin_login ≡ b
      → Accounted
          ((is_empty config.admin_login ≡ true)
            ⊎ ((u : Text) × (p : Text) × (r.basic ≡ some (u, p))
                × (authenticate_admin server.htpasswd config.admin_login u p ≡ some true)))
          (with_admin server r m h s)
  unfolding with_admin
  guarded_called h true e = inr (inl e)
  guarded_called h false e =
      rw e
        (elim (guard_called h r.basic refl) [ inl same ↦ inl same | inr shown ↦ inr (inr shown) ])

  agent_called :
      (next : Option Context → Handler) (token : Text)
      → bearer_token r.authorization ≡ some token
      → (o : Result Error Context × Database)
      → AtomicOutcome (Admitted sum256 s token caller m.at) (λ e. e ≡ bad_auth) s o
      → ((let_in next o).1 ≡ s)
        ⊎ ((token : Text) × (context : Context) × (t : Database) × (bearer_token r.authorization
              ≡ some token)
            × Admitted sum256 s token caller m.at context t)
  agent_called next token e (ok context, t) h = inr (token, context, t, e, h)
  agent_called next token e (err (refused x), t) h = inl h.1
  agent_called next token e (err (database x), t) h = inl h
  agent_called next token e (err entropy, t) h = inl h

  agent_given :
      (next : Option Context → Handler) (o : Option Text)
      → bearer_token r.authorization ≡ o
      → ((authenticate_bearer db sum256 caller m.at next o s).1 ≡ s)
        ⊎ ((token : Text) × (context : Context) × (t : Database) × (bearer_token r.authorization
              ≡ some token)
            × Admitted sum256 s token caller m.at context t)
  unfolding authenticate_bearer
  agent_given next none e = inl refl
  agent_given next (some token) e =
      agent_called next token e (authenticate db sum256 token caller m.at s)
        (authenticate_Sound db sum256 s token caller m.at).holds

  -- Whatever a request asks of any route, it leaves the database as it was unless it shows what the
  -- route requires: for an update, the name of an active device with the secret of one of its keys
  -- that is in use and not over; for an enrollment, the token of a pending one, of the stored digest;
  -- for the administration, the login's user and password, unless no login is configured; for an
  -- agent's call, the secret of an active identity, that has not expired, of an active device. The
  -- health and version routes never change it.
  pub serve-Accounted : (route : Route) → Accounted (Permitted route) (serve server r m route s)
  unfolding serve serve_update exchange_agent_enrollment authenticate_agent
  serve-Accounted Route.get_health = inl health-same
  serve-Accounted Route.get_version = inl refl
  serve-Accounted Route.get_update = update_basic _ r.basic refl refl
  serve-Accounted Route.post_enroll = exchange_given (bearer_token r.authorization) refl
  serve-Accounted (Route.admin route) =
      guarded_called (admin_handler server r m route) (is_empty config.admin_login) refl
  serve-Accounted (Route.agent route) =
      agent_given
        (λ stored. agent_handler db server.agent_valid server.is_ipv6 caller m.now stored route)
        (bearer_token r.authorization) refl
