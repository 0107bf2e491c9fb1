-- ===== src/Api/Update.antt =====
-- ddnsUpdate of server.go: the credentials of the caller, the update, and the note that the credential
-- works.
use olimpo.Common.{ℕ, Bool, Option, none, some, List, [], ◌∷◌, ◌++◌, Text, ℤ}
use olimpo.Errors.{Error, refused, ddns, DdnsError, Result, ok, err}
use olimpo.Gorm.{Gorm}
use olimpo.Model.{Database}
use olimpo.Text.{text}
use olimpo.Ddns.{AuthContext, authenticate_update}
use olimpo.Ddns.Update.{Settings, UpdateRequest, UpdateResult, update_host}
use olimpo.Credential.Advance.{confirm_credential_use}
use olimpo.Api.Requests.{Status}

-- The status and the body.
pub record Answer : Type 0 where
  pub status : Status
  pub body : Text

abbrev pub line : Text → Text
line s = s ++ 10 ∷ []

abbrev pub bad_auth_answer : Answer
bad_auth_answer = record { status = Status.unauthorized; body = line (text "badauth") }

-- The switch on the error of Update.
unfoldable pub update_error : Error → Answer
update_error (refused (ddns DdnsError.bad_auth)) = bad_auth_answer
update_error (refused (ddns DdnsError.not_fqdn)) = record {
  status = Status.bad_request;
  body = line (text "notfqdn");
}
update_error (refused (ddns DdnsError.bad_ip)) = record {
  status = Status.bad_request;
  body = line (text "badagent");
}
update_error _ = record { status = Status.unavailable; body = line (text "dnserr") }

-- `"%s %s\n"`
abbrev pub good_answer : UpdateResult → Answer
good_answer result = record { status = Status.success; body = line (result.code ++ 32 ∷ result.ip) }

module _ (db : Gorm) (sum256 : List ℕ → List ℕ) (parse_ip : Text → Option (Bool × Text))
    (upsert : Text → Text → Text → Text → ℤ → Bool → Option Text) (settings : Settings)
    (r : UpdateRequest) where
  -- An error of ConfirmCredentialUse is only logged.
  unfoldable pub answer_update :
      ℕ → AuthContext → Result Error UpdateResult × Database → Answer × Database
  unfolding update_error confirm_credential_use
  answer_update now auth (err e, s) = (update_error e, s)
  answer_update now auth (ok result, s) =
      (good_answer result, (confirm_credential_use db auth.credential.id now s).1)

  unfoldable pub answer_caller : ℕ → Result Error AuthContext × Database → Answer × Database
  unfolding answer_update update_host
  answer_caller now (err e, s) = (bad_auth_answer, s)
  answer_caller now (ok auth, s) =
      answer_update now auth (update_host db parse_ip upsert settings auth r s)

  -- ddnsUpdate: the basic credentials, if there are any, the time of the authentication and that of
  -- the confirmation
  unfoldable pub ddns_update : Option (Text × Text) → ℕ → ℕ → Database → Answer × Database
  unfolding answer_caller authenticate_update
  ddns_update none authenticated_at now s = (bad_auth_answer, s)
  ddns_update (some (username, password)) authenticated_at now s =
      answer_caller now
        (authenticate_update db sum256 username password r.caller_ip authenticated_at s)
