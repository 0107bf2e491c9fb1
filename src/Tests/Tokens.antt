-- ===== src/Tests/Tokens.antt =====
-- Keys, identities and an enrollment at concrete values. The digest is a stand-in.
use mathlib.Core.Option.{none-ne-some}
use olimpo.Common.{
  ℕ, ◌≡◌, refl, sym, ◌∙◌, arith, List, [], ◌∷◌, ◌++◌, some, none, Text, take, find, update_rows,
  count, select, nat_eq,
}
use olimpo.Errors.{ok}
use olimpo.Gorm.{◌>>=◌, first_or, first?, count_rows, update_where, create_row}
use olimpo.Gorm.Memory.{memory}
use olimpo.Gorm.Rules.{Atomic, Ensures}
use olimpo.Model.{
  Database, AgentEnrollment, EnrollmentStatus, DeviceIdentityCredential, CredentialStatus,
}
use olimpo.Text.{text, to_lower, hex_decode, hex_encode}
use olimpo.Keys.{
  agent_key_prefix, enrollment_key_prefix, generate_key, generate_agent_key,
  generate_enrollment_key, parse_key_id, parse_agent_key_id, parse_enrollment_key_id, after_prefix,
  split_dot, hash_api_key, verify_api_key,
}
use olimpo.Keys.Base64.{AllBytes, base64_encode, base64_decode}
use olimpo.Keys.RoundTrip.{ReadsBack, OtherKind, generate_key-ReadsBack, parse-generate_other}
use olimpo.AgentAuth.{issue_credential, issue_credential_tx, authenticate, revoke_credential}
use olimpo.AgentAuth.Identity.{OneIdentity, identity_at}
use olimpo.AgentAuth.Issue.{
  Issued, NotIssuable, issue_credential_Sound, Revoked, NotRevocable, revoke_credential_Sound,
}
use olimpo.AgentAuth.Verify.{Admitted, bad_auth, authenticate_Sound}
use olimpo.Enrollment.{ExchangeResult, claim, link_identity}
use olimpo.Enrollment.Grant.{
  exchange, exchange_id, exchange_tx, exchange_found, claim_token, issue_claimed,
}
use olimpo.Gorm.{Gorm}
use olimpo.Enrollment.Keeps.{Evolves, any_calls}
use olimpo.Enrollment.Lifecycle.{Reach, Call, run, reason_of, Reach-Evolves}
use olimpo.Enrollment.Exchange.{Exchanged, NotExchanged, exchange_Sound}
use olimpo.Enrollment.Once.{Trades, exchanged_once}
use olimpo.Tests.Sample.{router, sample}

abbrev pub digest : List ℕ → List ℕ
digest bytes = take 32 bytes

abbrev pub eight : List ℕ
eight = 0 ∷ 1 ∷ 2 ∷ 3 ∷ 4 ∷ 5 ∷ 254 ∷ 255 ∷ []

abbrev pub thirty_two : List ℕ
thirty_two = eight ++ eight ++ eight ++ eight

abbrev pub token : Text
token = enrollment_key_prefix ++ (hex_encode eight ++ 46 ∷ base64_encode thirty_two)

abbrev pub agent_key : Text
agent_key = agent_key_prefix ++ (hex_encode eight ++ 46 ∷ base64_encode thirty_two)

abbrev pub ticket : AgentEnrollment
ticket = record {
  id = 1;
  created_at = 0;
  device_id = 7;
  token_id = hex_encode eight;
  secret_hash = hash_api_key digest token;
  status = EnrollmentStatus.pending;
  expires_at = 1000;
  issued_at = none;
  completed_at = none;
  revoked_at = none;
  used_ip = [];
  agent_credential_id = none;
}

abbrev pub ticket_db : Database
ticket_db = record sample { enrollments = ticket ∷ [] }

abbrev pub identity : DeviceIdentityCredential
identity = record {
  id = 1;
  device_id = 7;
  credential_id = hex_encode eight;
  secret_hash = hash_api_key digest agent_key;
  status = CredentialStatus.active;
  activated_at = some 200;
  expires_at = none;
  revoked_at = none;
  last_used_at = none;
  last_used_ip = [];
}

abbrev result : ExchangeResult
result = record {
  enrollment = link_identity 1 (claim 100 (text "192.0.2.1") ticket);
  device = router;
  credential = identity;
  agent_key = record {
    id = hex_encode eight;
    plaintext = agent_key;
    hash = hash_api_key digest agent_key;
  };
}

abbrev traded_db : Database
traded_db = record ticket_db {
  enrollments = result.enrollment ∷ [];
  agent_credentials = identity ∷ [];
}

ticket_trade :
    exchange memory digest token (text "192.0.2.1") (some eight) (some thirty_two) 100 200 ticket_db
    ≡ (ok result, traded_db)
unfolding exchange exchange_id exchange_tx exchange_found claim_token issue_claimed
    issue_credential_tx generate_key parse_key_id after_prefix split_dot hash_api_key verify_api_key
    hex_encode hex_decode to_lower base64_encode base64_decode find update_rows count select
    first_or first? count_rows update_where create_row ◌>>=◌
ticket_trade = refl

no_rivals : OneIdentity []
unfolding find
no_rivals = record { ascending = tt; one_active = λ i j c k h. absurd (none-ne-some c h) }

one_row_at : (i : ℕ) (c : DeviceIdentityCredential) → identity_at i (identity ∷ []) ≡ some c → i ≡ 1
unfolding find
one_row_at i c h = ground arith

one_row-OneIdentity : OneIdentity (identity ∷ [])
one_row-OneIdentity = record {
  ascending = (tt, tt);
  one_active = λ i j c k h l _ _ _. one_row_at i c h ∙ sym (one_row_at j k l);
}

exchanged_once_example : ¬ Trades traded_db 1 traded_db
exchanged_once_example =
    exchanged_once ticket_db traded_db traded_db traded_db 1 (tt, tt) no_rivals
      (
        memory,
        digest,
        token,
        text "192.0.2.1",
        some eight,
        some thirty_two,
        100,
        200,
        result,
        ticket_trade,
        refl,
      )
      Reach.here (tt, tt) one_row-OneIdentity

exchange_Sound_example :
    Ensures
      (Exchanged digest ticket_db token 100)
      (NotExchanged ticket_db)
      (exchange memory digest token (text "192.0.2.1") (some eight) (some thirty_two) 100 200)
      ticket_db
exchange_Sound_example =
    exchange_Sound memory digest ticket_db (tt, tt) no_rivals token (text "192.0.2.1") (some eight)
      (some thirty_two) 100 200

Reach-Evolves_example :
    Evolves any_calls traded_db (run memory digest (Call.revoke 7 1 300 301 302) traded_db)
    × ((db : Gorm) (sum256 : List ℕ → List ℕ) (c : Call)
        → Evolves
            (reason_of c)
            (run memory digest (Call.revoke 7 1 300 301 302) traded_db)
            (run db sum256 c (run memory digest (Call.revoke 7 1 300 301 302) traded_db)))
Reach-Evolves_example =
    Reach-Evolves (Reach.next Reach.here memory digest (Call.revoke 7 1 300 301 302))

issue_credential_Sound_example :
    Atomic
      (Issued sample 7)
      (NotIssuable sample 7)
      (issue_credential memory digest 7 (some eight) (some thirty_two) 100)
      sample
issue_credential_Sound_example =
    issue_credential_Sound memory digest sample no_rivals 7 (some eight) (some thirty_two) 100

revoke_credential_Sound_example :
    Atomic
      (Revoked traded_db 7 1 300)
      (NotRevocable traded_db 7 1)
      (revoke_credential memory 7 1 300)
      traded_db
revoke_credential_Sound_example =
    revoke_credential_Sound memory traded_db one_row-OneIdentity 7 1 300

authenticate_Sound_example :
    Atomic
      (Admitted digest traded_db agent_key (text "192.0.2.1") 300)
      (λ e. e ≡ bad_auth)
      (authenticate memory digest agent_key (text "192.0.2.1") 300)
      traded_db
authenticate_Sound_example =
    authenticate_Sound memory digest traded_db agent_key (text "192.0.2.1") 300

eight-AllBytes : AllBytes eight
eight-AllBytes = (
  omega arith,
  (
    omega arith,
    (omega arith, (omega arith, (omega arith, (omega arith, (omega arith, (omega arith, tt)))))),
  ),
)

All-append : (s t : List ℕ) → AllBytes s → AllBytes t → AllBytes (s ++ t)
All-append [] t h k = k
All-append (b ∷ s) t h k = (h.0, All-append s t h.1 k)

thirty_two-AllBytes : AllBytes thirty_two
thirty_two-AllBytes =
    All-append (eight ++ eight ++ eight) eight
      (All-append (eight ++ eight) eight (All-append eight eight eight-AllBytes eight-AllBytes)
        eight-AllBytes)
      eight-AllBytes

generate_key-ReadsBack_example :
    ReadsBack digest agent_key_prefix
      (generate_key digest agent_key_prefix (some eight) (some thirty_two))
generate_key-ReadsBack_example =
    generate_key-ReadsBack eight thirty_two eight-AllBytes thirty_two-AllBytes refl refl digest
      agent_key_prefix

parse-generate_other_example :
    OtherKind parse_enrollment_key_id (generate_agent_key digest (some eight) (some thirty_two))
    × OtherKind parse_agent_key_id (generate_enrollment_key digest (some eight) (some thirty_two))
parse-generate_other_example = parse-generate_other digest (some eight) (some thirty_two)
