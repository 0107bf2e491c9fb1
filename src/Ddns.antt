-- ===== src/Ddns.antt =====
-- products/hermes/internal/ddns/service.go: the authentication of an update, the names that a device may
-- create, its log, and the split of a name into its label and its managed zone.
pub mod Steps
pub mod Names
pub mod Verify
pub mod Update
pub mod Kept
pub mod Owners
pub mod Stored
pub mod Hosts
use olimpo.Common.{
  ℕ, Bool, true, false, not, ◌&&◌, ◌||◌, Option, none, some, List, [], ◌∷◌, ◌++◌, ◌==◌, nat_eq,
  text_eq, Text, if◌then◌else◌,
}
use olimpo.Errors.{DdnsError, ddns, Refusal, refused}
use olimpo.Gorm.{
  Gorm, Exec, pure, refuse, refuse_as, ◌>>=◌, ◌>>◌, first_or, find_rows, update_row, create_row,
}
use olimpo.Model.{
  Database, Device, DdnsCredential, Host, update_logs_table, CredentialStatus, DeviceStatus,
  credential_status_eq, device_status_eq, devices_table, ddns_credentials_table,
}
use olimpo.Text.{text, trim_space, to_lower, is_empty, has_prefix}
use olimpo.Keys.{verify_api_key}
use olimpo.AgentAuth.{is_expired}
use olimpo.Credential.Finish.{not_after}

pub record AuthContext : Type 0 where
  pub device : Device
  pub credential : DdnsCredential

abbrev pub ddns_bad_auth : Refusal
ddns_bad_auth = ddns DdnsError.bad_auth

-- `name = ? AND status = ?`
abbrev pub active_named : Text → Device → Bool
active_named name d = d.name == name && d.status == DeviceStatus.active

-- `device_id = ? AND status IN ?`
abbrev pub in_use : ℕ → DdnsCredential → Bool
in_use d c =
    c.device_id == d && (c.status == CredentialStatus.active || c.status == CredentialStatus.grace)

-- The credential is passed over.
abbrev pub is_over : ℕ → DdnsCredential → Bool
is_over now c =
    is_expired c.expires_at now
    || (c.status == CredentialStatus.grace && not_after c.grace_until now)

abbrev pub use_credential : ℕ → Text → DdnsCredential → DdnsCredential
use_credential now ip c = record c { last_used_at = some now; last_used_ip = ip }

module _ (db : Gorm) (sum256 : List ℕ → List ℕ) where
  -- The loop over the credentials.
  unfoldable pub try_credentials :
      Device → Text → Text → ℕ → List DdnsCredential → Exec Database AuthContext
  try_credentials device api_key caller_ip now [] = refuse ddns_bad_auth
  try_credentials device api_key caller_ip now (c ∷ rest) =
      if is_over now c || not (verify_api_key sum256 api_key c.secret_hash)
      then try_credentials device api_key caller_ip now rest
      else (update_row db ddns_credentials_table c (use_credential now caller_ip)
          >> pure record { device = device; credential = use_credential now caller_ip c })

  -- Authenticate
  unfoldable pub authenticate_update : Text → Text → Text → ℕ → Exec Database AuthContext
  unfolding try_credentials
  authenticate_update username api_key caller_ip now = do
    device ←
        refuse_as ddns_bad_auth
          (first_or db devices_table (refused ddns_bad_auth) (active_named username))
    credentials ← refuse_as ddns_bad_auth (find_rows db ddns_credentials_table (in_use device.id))
    try_credentials device api_key caller_ip now credentials

-- strings.TrimSuffix(s, ".")
unfoldable pub trim_dot : Text → Text
trim_dot [] = []
trim_dot (c ∷ []) = if c == 46 then [] else c ∷ []
trim_dot (c ∷ d ∷ s) = c ∷ trim_dot (d ∷ s)

abbrev pub normal_name : Text → Text
normal_name s = trim_dot (to_lower (trim_space s))

abbrev pub put_back : ℕ → Option Text → Option Text
put_back c none = none
put_back c (some s) = some (c ∷ s)

-- strings.HasSuffix, then strings.TrimSuffix
unfoldable pub before_suffix : Text → Text → Option Text
before_suffix [] suffix = if suffix == [] then some [] else none
before_suffix (c ∷ s) suffix =
    if (c ∷ s) == suffix then some [] else put_back c (before_suffix s suffix)

-- strings.Contains(s, ".")
abbrev pub has_dot : Text → Bool
has_dot [] = false
has_dot (c ∷ s) = c == 46 || has_dot s

abbrev pub label_in : Option Text → Text → Option (Text × Text) → Option (Text × Text)
label_in none zone others = others
label_in (some label) zone others =
    if is_empty label || has_dot label then none else some (label, zone)

unfoldable pub split_name : Text → List Text → Option (Text × Text)
unfolding before_suffix trim_dot
split_name fqdn [] = none
split_name fqdn (z ∷ zones) =
    let zone = normal_name z in
    label_in (before_suffix fqdn (46 ∷ zone)) zone (split_name fqdn zones)

-- splitManagedFQDN, over AllowedDomains: the label and the zone, or ErrNotFQDN
unfoldable pub split_managed_fqdn : List Text → Text → Option (Text × Text)
unfolding split_name
split_managed_fqdn allowed_domains fqdn = split_name (normal_name fqdn) allowed_domains

-- canAutocreate
unfoldable pub can_autocreate : Text → Text → Text → Bool
can_autocreate policy device_name host_label =
    if policy == text "any"
    then true
    else let base = to_lower (trim_space device_name) in
      let label = to_lower (trim_space host_label) in
      label == base || has_prefix label (base ++ text "-")

-- `host != nil && host.ID != 0`
abbrev pub logged_host : Option Host → Option ℕ
logged_host none = none
logged_host (some h) = if h.id == 0 then none else some h.id

-- writeLog, which ignores the error of Create. The time of its end is the last argument.
unfoldable pub write_log :
    Gorm
    → AuthContext
    → Option Host
    → Text
    → Text
    → Text
    → Text
    → Text
    → Text
    → Text
    → ℕ
    → ℕ
    → Database
    → Database
write_log db auth host operation status response message sent_ip caller_ip user_agent requested_at
      completed_at s =
    (create_row db update_logs_table
      (λ id at. record {
        id = id;
        device_id = auth.device.id;
        host_id = logged_host host;
        credential_id = some auth.credential.id;
        operation = operation;
        status = status;
        response_code = response;
        message = message;
        sent_ip = sent_ip;
        caller_ip = caller_ip;
        user_agent = user_agent;
        requested_at = requested_at;
        completed_at = completed_at;
      })
      s).1
