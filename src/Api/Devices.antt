-- ===== src/Api/Devices.antt =====
-- createDevice and createDomain of server.go, after the request is bound and validated.
use olimpo.Common.{
  ℕ, Bool, true, not, Option, none, some, List, [], ◌==◌, nat_eq, text_eq, Text, if◌then◌else◌, ℤ,
  pos, negsuc,
}
use olimpo.Errors.{Error, entropy, Result}
use olimpo.Gorm.{Gorm, Exec, pure, ◌>>=◌, ◌>>◌, create_row, lift}
use olimpo.Model.{
  Database, Device, DdnsCredential, Domain, DeviceStatus, CredentialStatus, domains_table,
  devices_table, ddns_credentials_table,
}
use olimpo.Text.{text, to_lower}
use olimpo.Keys.{GeneratedKey, generate_ddns_key}
use olimpo.Ddns.{trim_dot}
use olimpo.Api.Requests.{Status, lists_item}
use olimpo.Api.Replies.{Body, Reply, Handler, reply_with, bad_request, respond, Bound, with_body}

-- createDeviceRequest
pub record DeviceRequest : Type 0 where
  pub name : Text
  pub display_name : Text
  pub kind : Text

-- The row of an active device that has not been seen yet.
unfoldable pub new_device : DeviceRequest → ℕ → Device
new_device request id = record {
  id = id;
  name = request.name;
  display_name = request.display_name;
  kind = request.kind;
  status = DeviceStatus.active;
  last_seen_at = none;
  last_ip = [];
  agent_version = [];
}

unfoldable pub new_credential : ℕ → GeneratedKey → ℕ → ℕ → DdnsCredential
new_credential device_id key now id = record {
  id = id;
  device_id = device_id;
  key_id = key.id;
  secret_hash = key.hash;
  status = CredentialStatus.active;
  activated_at = some now;
  confirmed_at = none;
  expires_at = none;
  revoked_at = none;
  grace_until = none;
  last_used_at = none;
  last_used_ip = [];
  replaces_credential_id = none;
}

module _ (db : Gorm) where
  -- The body of the transaction.
  unfoldable pub store_device : DeviceRequest → GeneratedKey → ℕ → Exec Database Device
  unfolding new_device new_credential
  store_device request key now = do
    device ← create_row db devices_table (λ id at. new_device request id)
    create_row db ddns_credentials_table (λ id at. new_credential device.id key now id)
    pure device

  -- createDevice: the device and the key that is shown once
  unfoldable pub create_device :
      (List ℕ → List ℕ)
      → DeviceRequest
      → Option (List ℕ)
      → Option (List ℕ)
      → ℕ
      → Exec Database (Device × GeneratedKey)
  unfolding store_device
  create_device sum256 request id_raw secret_raw now = do
    key ← lift (generate_ddns_key sum256 id_raw secret_raw)
    device ← db.transaction (store_device request key now)
    pure (device, key)

-- createDomainRequest
pub record DomainRequest : Type 0 where
  pub name : Text
  pub default_ttl : ℤ
  pub wildcard : Bool

abbrev pub domain_name : DomainRequest → Text
domain_name request = trim_dot (to_lower request.name)

abbrev pub or_default : ℤ → ℤ → ℤ
or_default default_ttl (pos n) = if n == 0 then default_ttl else pos n
or_default default_ttl (negsuc n) = negsuc n

abbrev pub domain_created : Result Error Domain × Database → Reply × Database
domain_created = respond (λ d. reply_with Status.created (Body.domain d)) (λ e. Status.conflict)

-- createDomain: only for the domains of the configuration
unfoldable pub create_domain : Gorm → List Text → ℤ → DomainRequest → Handler
unfolding lists_item trim_dot to_lower
create_domain db allowed_domains default_ttl request s =
    if not (lists_item allowed_domains (domain_name request))
    then bad_request (text "domain is not listed in HERMES_DOMAINS") s
    else domain_created (
        create_row db domains_table
          (λ id at. record {
            id = id;
            name = domain_name request;
            default_ttl = or_default default_ttl request.default_ttl;
            enabled = true;
            wildcard = request.wildcard;
          })
          s)

-- What the validator says of both requests.
pub record DeviceValidator : Type 0 where
  pub device : DeviceRequest → Option Text
  pub domain : DomainRequest → Option Text

-- The random source fails, or the transaction does.
abbrev pub device_error : Error → Status
device_error entropy = Status.internal_error
device_error _ = Status.conflict

module _ (db : Gorm) (valid : DeviceValidator) where
  -- createDomain, from its body on
  unfoldable pub post_domain : List Text → ℤ → Bound DomainRequest → Handler
  unfolding create_domain with_body
  post_domain allowed_domains default_ttl body =
      with_body valid.domain body (create_domain db allowed_domains default_ttl)

  -- createDevice, from its body on
  unfoldable pub post_device :
      (List ℕ → List ℕ) → Option (List ℕ) → Option (List ℕ) → ℕ → Bound DeviceRequest → Handler
  unfolding create_device with_body
  post_device sum256 id_raw secret_raw now body = with_body valid.device body λ req s.
      respond (λ made. reply_with Status.created (Body.device_created made.0 made.1.plaintext))
        device_error (create_device db sum256 req id_raw secret_raw now s)
