-- ===== src/Tests/Server.antt =====
-- The configuration and the handlers at concrete values.
use olimpo.Common.{
  false, ◌≡◌, ◌++◌, refl, [], ◌∷◌, some, none, true, ◌==◌, text_eq, if◌then◌else◌, find, select,
}
use olimpo.Errors.{Error, ok, EnrollmentError, refused, enrollment}
use olimpo.Gorm.{◌>>=◌, create_row, first_or, find_rows, update_where, first?}
use olimpo.Gorm.Memory.{memory}
use olimpo.Gorm.Rules.{Atomic}
use olimpo.Model.{Database, Device}
use olimpo.Text.{text, trim_space, to_lower, hex_encode, has_prefix}
use olimpo.Keys.{GeneratedKey, hash_api_key, generate_key, ddns_key_prefix, verify_api_key}
use olimpo.Keys.Base64.{base64_encode}
use olimpo.Ddns.{AuthContext, authenticate_update, active_named, split_managed_fqdn, can_autocreate}
use olimpo.Config.{Environment, read_config, load}
use olimpo.Config.Checked.{LoadOutcome, load_Sound}
use olimpo.Api.Requests.{
  Status, caller_ip, bearer_token, credential_error, network_context_error, telemetry_error,
  enrollment_admin_error, agent_credential_admin_error,
}
use olimpo.Api.Statuses.{is_internal, errors_answered}
use olimpo.Api.Devices.{DeviceRequest, create_device, new_device}
use olimpo.Api.Access.{create_device-Admits}
use olimpo.Api.Created.{IsReliable, DeviceCreated, create_device_Sound}
use olimpo.Api.Update.{ddns_update}
use olimpo.Api.Answers.{Served, ddns_update-Served}
use olimpo.Tests.Updates.{short_digest, keyed}
use olimpo.Tests.Hosts.{settings, request, plain_ip, taken}
use olimpo.Tests.Sample.{sample}

abbrev environment : Environment
environment key =
    if key == text "HERMES_DOMAINS"
    then text " Example.org., example.com ,"
    else if key == text "HERMES_ALLOW_INSECURE_ADMIN"
    then text "true"
    else []

two_domains :
    (read_config environment).allowed_domains ≡ text "example.org" ∷ text "example.com" ∷ []
unfolding read_config to_lower trim_space
two_domains = refl

load_Sound_example : LoadOutcome (read_config environment) (load environment)
load_Sound_example = load_Sound environment

bearer : bearer_token (text " bearer  hagent_1 ") ≡ some (text "hagent_1")
unfolding bearer_token trim_space to_lower
bearer = refl

forwarded :
    caller_ip
      (λ s. none)
      true
      record { x_real_ip = []; x_forwarded_for = text "192.0.2.1, 10.0.0.1"; remote_addr = [] }
    ≡ text "192.0.2.1"
unfolding caller_ip trim_space
forwarded = refl

abbrev bad_ttl : Error
bad_ttl = refused (enrollment EnrollmentError.invalid_ttl)

errors_answered_example :
    (is_internal (credential_error bad_ttl) ≡ true)
    × (is_internal (network_context_error bad_ttl) ≡ true)
    × (is_internal (telemetry_error bad_ttl) ≡ true)
    × (is_internal (enrollment_admin_error bad_ttl) ≡ false)
    × (is_internal (agent_credential_admin_error bad_ttl) ≡ true)
errors_answered_example = errors_answered bad_ttl

memory-IsReliable : IsReliable memory
memory-IsReliable = record {
  finds_first = λ p t. refl;
  finds_rows = λ p t. refl;
  updates = λ p f t. refl;
}

abbrev gate : DeviceRequest
gate = record { name = text "gate"; display_name = []; kind = [] }

create_device_Sound_example :
    Atomic
      (DeviceCreated short_digest gate 100 (some (1 ∷ 2 ∷ [])) (some (3 ∷ [])) sample)
      (λ r. ⊥)
      (create_device memory short_digest gate (some (1 ∷ 2 ∷ [])) (some (3 ∷ [])) 100)
      sample
create_device_Sound_example =
    create_device_Sound short_digest gate 100 memory (some (1 ∷ 2 ∷ [])) (some (3 ∷ [])) sample

abbrev gate_device : Device
gate_device = new_device gate 8

abbrev gate_key : GeneratedKey
gate_key = record {
  id = hex_encode (1 ∷ 2 ∷ []);
  plaintext = ddns_key_prefix ++ (hex_encode (1 ∷ 2 ∷ []) ++ 46 ∷ base64_encode (3 ∷ []));
  hash =
      hash_api_key short_digest
        (ddns_key_prefix ++ (hex_encode (1 ∷ 2 ∷ []) ++ 46 ∷ base64_encode (3 ∷ [])));
}

abbrev created_db : Database
created_db =
    (create_device memory short_digest gate (some (1 ∷ 2 ∷ [])) (some (3 ∷ [])) 100 sample).1

gate_created :
    create_device memory short_digest gate (some (1 ∷ 2 ∷ [])) (some (3 ∷ [])) 100 sample
    ≡ (ok (gate_device, gate_key), created_db)
unfolding create_device ◌>>=◌ create_row generate_key
gate_created = refl

no_gate : find (active_named (text "gate")) sample.devices ≡ none
unfolding find
no_gate = refl

create_device-Admits_example :
    (context : AuthContext) × (u : Database) × (authenticate_update memory short_digest
        (text "gate")
        gate_key.plaintext
        (text "192.0.2.1")
        500
        created_db
      ≡ (ok context, u))
    × (context.device ≡ gate_device)
create_device-Admits_example =
    create_device-Admits memory memory-IsReliable short_digest gate (some (1 ∷ 2 ∷ []))
      (some (3 ∷ [])) 100 sample gate_device gate_key created_db (text "192.0.2.1") 500 no_gate
      gate_created

update_answered :
    (ddns_update memory short_digest plain_ip taken settings request
      (some (text "udm-7", text "hddns_key"))
      90
      110
      keyed).0.status
    ≡ Status.success
unfolding ddns_update ◌>>=◌ first_or find find_rows select verify_api_key hex_encode update_where
    split_managed_fqdn to_lower trim_space first? create_row can_autocreate has_prefix
update_answered = refl

ddns_update-Served_example :
    Served memory short_digest plain_ip taken settings request 90 110
      (text "udm-7")
      (text "hddns_key")
      keyed
      (ddns_update memory short_digest plain_ip taken settings request
        (some (text "udm-7", text "hddns_key"))
        90
        110
        keyed)
ddns_update-Served_example =
    ddns_update-Served memory short_digest plain_ip taken settings request 90 110 (text "udm-7")
      (text "hddns_key") keyed tt update_answered
