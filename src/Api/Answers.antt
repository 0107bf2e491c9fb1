-- ===== src/Api/Answers.antt =====
-- ddnsUpdate: what the answer 200 says.
use olimpo.Common.{ℕ, ◌≡◌, refl, Bool, Option, some, List, ◌∷◌, ◌++◌, Text, ℤ, arith, Ascending}
use olimpo.Errors.{
  Error, refused, ddns, DdnsError, database, entropy, credential, agent_auth, enrollment, telemetry,
  network, Result, ok, err,
}
use olimpo.Gorm.{Gorm}
use olimpo.Gorm.Rules.{Outcome, AtomicOutcome}
use olimpo.Model.{Database}
use olimpo.Ddns.{AuthContext, ddns_bad_auth, authenticate_update}
use olimpo.Ddns.Verify.{UpdaterAdmitted, authenticate_update_Sound}
use olimpo.Ddns.Update.{Settings, UpdateRequest, UpdateResult, update_host}
use olimpo.Ddns.Stored.{HostUpdated, UpdateRefused}
use olimpo.Ddns.Hosts.{update_host_Sound}
use olimpo.Credential.Advance.{confirm_credential_use}
use olimpo.Api.Requests.{Status}
use olimpo.Api.Update.{Answer, line, update_error, answer_update, answer_caller, ddns_update}

update_error_fails : (e : Error) → ¬ ((update_error e).status ≡ Status.success)
unfolding update_error
update_error_fails (refused (ddns DdnsError.bad_auth)) h = absurd (ground arith)
update_error_fails (refused (ddns DdnsError.not_fqdn)) h = absurd (ground arith)
update_error_fails (refused (ddns DdnsError.bad_ip)) h = absurd (ground arith)
update_error_fails (refused (ddns DdnsError.dns_update)) h = absurd (ground arith)
update_error_fails (refused (credential e)) h = absurd (ground arith)
update_error_fails (refused (agent_auth e)) h = absurd (ground arith)
update_error_fails (refused (enrollment e)) h = absurd (ground arith)
update_error_fails (refused (telemetry e)) h = absurd (ground arith)
update_error_fails (refused (network e)) h = absurd (ground arith)
update_error_fails (database e) h = absurd (ground arith)
update_error_fails entropy h = absurd (ground arith)

module _ (db : Gorm) (sum256 : List ℕ → List ℕ) (parse_ip : Text → Option (Bool × Text))
    (upsert : Text → Text → Text → Text → ℤ → Bool → Option Text) (settings : Settings)
    (r : UpdateRequest) (authenticated_at now : ℕ) where
  -- The steps behind the answer: the caller is let in, the host is updated, the answer tells the code
  -- and the address, and the credential is confirmed.
  abbrev pub Served : Text → Text → Database → Answer × Database → Type 0
  Served username password s (a, t) =
      (auth : AuthContext) × (s₁ : Database) × (result : UpdateResult) × (s₂ : Database)
      × UpdaterAdmitted sum256 s username password r.caller_ip authenticated_at auth s₁
      × HostUpdated parse_ip upsert settings auth r s₁ result s₂
      × (a.body ≡ line (result.code ++ 32 ∷ result.ip))
      × (t ≡ (confirm_credential_use db auth.credential.id now s₂).1)

  answer_update-Served :
      (username password : Text) (s : Database) (auth : AuthContext) (s₁ : Database)
      (o : Result Error UpdateResult × Database)
      → UpdaterAdmitted sum256 s username password r.caller_ip authenticated_at auth s₁
      → Outcome
          (HostUpdated parse_ip upsert settings auth r s₁)
          (UpdateRefused parse_ip upsert settings auth r s₁)
          o
      → (answer_update db sum256 parse_ip upsert settings r now auth o).0.status ≡ Status.success
      → Served username password s (answer_update db sum256 parse_ip upsert settings r now auth o)
  unfolding answer_update
  answer_update-Served username password s auth s₁ (err e, t) admitted p h =
      absurd (update_error_fails e h)
  answer_update-Served username password s auth s₁ (ok result, t) admitted p h =
      (auth, s₁, result, t, admitted, p, refl, refl)

  answer_caller-Served :
      (username password : Text) (s : Database) (o : Result Error AuthContext × Database)
      → Ascending (λ x. x.id) s.hosts
      → AtomicOutcome
          (UpdaterAdmitted sum256 s username password r.caller_ip authenticated_at)
          (λ e. e ≡ ddns_bad_auth)
          s
          o
      → (answer_caller db sum256 parse_ip upsert settings r now o).0.status ≡ Status.success
      → Served username password s (answer_caller db sum256 parse_ip upsert settings r now o)
  unfolding answer_caller
  answer_caller-Served username password s (err e, t) a p h = absurd (ground arith)
  answer_caller-Served username password s (ok auth, t) a p h =
      answer_update-Served username password s auth t
        (update_host db parse_ip upsert settings auth r t) p
        (update_host_Sound db parse_ip upsert settings auth r t (rw (admitted_hosts p) a)).holds h
    where
      admitted_hosts :
          UpdaterAdmitted sum256 s username password r.caller_ip authenticated_at auth t
          → t.hosts ≡ s.hosts
      admitted_hosts (c, d, i, u, o, v, k, e) = rw e refl

  -- An answer of 200 was given to a caller with basic credentials that Authenticate lets in, after
  -- Update left the host of the name with the device and the address, and it tells the code and the
  -- address of that update; then the use of the credential is confirmed. The hosts are in the order
  -- of their keys.
  pub ddns_update-Served :
      (username password : Text) (s : Database)
      → Ascending (λ x. x.id) s.hosts
      → (ddns_update db sum256 parse_ip upsert settings r
          (some (username, password))
          authenticated_at
          now
          s).0.status
        ≡ Status.success
      → Served username password s (
          ddns_update db sum256 parse_ip upsert settings r
            (some (username, password))
            authenticated_at
            now
            s)
  unfolding ddns_update
  ddns_update-Served username password s a h =
      answer_caller-Served username password s
        (authenticate_update db sum256 username password r.caller_ip authenticated_at s) a
        (authenticate_update_Sound db sum256 s username password r.caller_ip authenticated_at).holds
        h
