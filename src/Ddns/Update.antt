-- ===== src/Ddns/Update.antt =====
-- Update of service.go: from a host name and an address to the DNS record, the host's row and the log.
-- `parse_ip` is `net.ParseIP` with the family and the text of what it reads: whether `To4` is not nil,
-- and `String`. `upsert` is the DNS updater's `Upsert`: its error's text, or `none` for nil.
use olimpo.Common.{
  ℕ, Bool, true, false, not, ◌&&◌, Option, none, some, List, [], ◌++◌, ◌==◌, nat_eq, text_eq, Text,
  if◌then◌else◌, ℤ,
}
use olimpo.Errors.{DdnsError, ddns, ok}
use olimpo.Gorm.{Gorm, Exec, pure, refuse, ◌>>=◌, ◌>>◌, first?, update_row, create_row}
use olimpo.Model.{
  Database, Device, Domain, Host, DeviceStatus, domains_table, devices_table, hosts_table,
}
use olimpo.Text.{text, trim_space, is_empty}
use olimpo.Ddns.{AuthContext, split_managed_fqdn, can_autocreate, write_log}

-- The settings of Service
pub record Settings : Type 0 where
  pub allowed_domains : List Text
  pub default_ttl : ℤ
  pub allow_wildcard : Bool
  pub autocreate_policy : Text

-- What one call of Update is given, and the times that it reads.
pub record UpdateRequest : Type 0 where
  pub fqdn : Text
  pub requested_ip : Text
  pub caller_ip : Text
  pub user_agent : Text
  pub requested_at : ℕ
  pub now : ℕ
  pub completed_at : ℕ

-- Result
pub record UpdateResult : Type 0 where
  pub code : Text
  pub ip : Text
  pub changed : Bool
  pub created : Bool
  pub host : Host

-- `recordType`
abbrev pub record_type_of : Bool → Text
record_type_of true = text "A"
record_type_of false = text "AAAA"

-- `ip`, before it is parsed
unfoldable pub sent_address : UpdateRequest → Text
sent_address r =
    let asked = trim_space r.requested_ip in if is_empty asked then r.caller_ip else asked

-- `name = ? AND enabled = ?`
abbrev pub enabled_zone : Text → Domain → Bool
enabled_zone zone d = d.name == zone && d.enabled

-- `domain_id = ? AND hostname = ?`
abbrev pub host_where : ℕ → Text → Host → Bool
host_where domain_id label h = h.domain_id == domain_id && h.hostname == label

abbrev pub seen_at : ℕ → Text → Device → Device
seen_at now ip d = record d { last_seen_at = some now; last_ip = ip }

unfoldable pub new_host : AuthContext → Domain → Text → Text → Host
new_host auth domain label record_type = record {
  id = 0;
  domain_id = domain.id;
  device_id = auth.device.id;
  hostname = label;
  ip_address = [];
  record_type = record_type;
  ttl = domain.default_ttl;
  status = DeviceStatus.active;
  last_update = 0;
}

abbrev pub published : Text → Text → ℕ → Host → Host
published ip record_type now h = record h {
  ip_address = ip;
  record_type = record_type;
  last_update = now;
}

-- `_ = ...Error`: the statement's failure is passed over.
unfoldable pub ignore : {A : Type 0} → Exec Database A → Exec Database (Unit {0})
ignore m s = (ok tt, (m s).1)

abbrev pub not_fqdn_text : Text
not_fqdn_text = text "hostname is not a managed FQDN"

abbrev pub bad_ip_text : Text
bad_ip_text = text "invalid IP address"

abbrev pub unauthorized_text : Text → Text → Text
unauthorized_text device fqdn =
    text "device " ++ (device ++ (text " is not authorized to auto-create hostname " ++ fqdn))

abbrev pub foreign_text : Text → Text
foreign_text fqdn = text "hostname " ++ (fqdn ++ text " belongs to another device")

module _ (db : Gorm) (auth : AuthContext) (r : UpdateRequest) where
  -- A call of writeLog: the operation, the status, the response, the message and the address sent.
  unfoldable pub log_update :
      Option Host → Text → Text → Text → Text → Text → Exec Database (Unit {0})
  unfolding write_log
  log_update host operation status response message sent s = (
    ok tt,
    write_log db auth host operation status response message sent r.caller_ip r.user_agent
        r.requested_at r.completed_at s,
  )

  abbrev pub reject : {A : Type 0} → Option Host → Text → Text → Text → DdnsError → Exec Database A
  reject host response message sent e =
      log_update host (text "reject") (text "error") response message sent >> refuse (ddns e)

  -- The address is the stored one.
  unfoldable pub leave_host : Text → Host → Exec Database UpdateResult
  unfolding log_update ignore
  leave_host ip h = do
    ignore (update_row db devices_table auth.device (seen_at r.now ip))
    ignore (update_row db hosts_table h (λ x. record x { last_update = r.now }))
    log_update (some h) (text "no_change") (text "success") (text "nochg")
        (text "IP address unchanged") ip
    pure record {
      code = text "nochg";
      ip = ip;
      changed = false;
      created = false;
      host = record h { last_update = r.now };
    }

  -- Create, or Save by the primary key.
  unfoldable pub store_host : Bool → Host → Exec Database Host
  store_host true h = create_row db hosts_table (λ id at. record h { id = id })
  store_host false h = do update_row db hosts_table h (λ x. record h { id = x.id }); pure h

  -- What follows a successful upsert.
  unfoldable pub note_host : Bool → Text → Host → Exec Database UpdateResult
  unfolding store_host log_update ignore
  note_host created ip h = do
    stored ← store_host created h
    ignore (update_row db devices_table auth.device (seen_at r.now ip))
    log_update (some stored) (if created then text "create" else text "update") (text "success")
        (text "good") (text "DNS record updated") ip
    pure record { code = text "good"; ip = ip; changed = true; created = created; host = stored }

module _ (db : Gorm) (upsert : Text → Text → Text → Text → ℤ → Bool → Option Text)
    (auth : AuthContext) (r : UpdateRequest) where
  unfoldable pub after_upsert : Option Text → Bool → Text → Text → Host → Exec Database UpdateResult
  unfolding note_host
  after_upsert (some message) created record_type ip h =
      log_update db auth r (some h) (text "dns_update") (text "error") (text "dnserr") message ip
      >> refuse (ddns DdnsError.dns_update)
  after_upsert none created record_type ip h =
      note_host db auth r created ip (published ip record_type r.now h)

  abbrev pub publish_host :
      Domain → Text → Text → Bool → Text → Text → Host → Exec Database UpdateResult
  publish_host domain label zone created record_type ip h =
      after_upsert (upsert label zone record_type ip h.ttl domain.wildcard) created record_type ip h

  -- What is done for the host of that name, if there is one.
  unfoldable pub update_found :
      Settings → Domain → Text → Text → Text → Text → Option Host → Exec Database UpdateResult
  unfolding after_upsert leave_host new_host
  update_found settings domain label zone record_type ip none =
      if not (can_autocreate settings.autocreate_policy auth.device.name label)
      then reject db auth r none (text "badauth") (unauthorized_text auth.device.name r.fqdn) ip
          DdnsError.bad_auth
      else publish_host domain label zone true record_type ip
          (new_host auth domain label record_type)
  update_found settings domain label zone record_type ip (some h) =
      if not (h.device_id == auth.device.id)
      then reject db auth r (some h) (text "badauth") (foreign_text r.fqdn) ip DdnsError.bad_auth
      else if h.ip_address == ip && h.record_type == record_type
      then leave_host db auth r ip h
      else publish_host domain label zone false record_type ip h

-- The managed zone, which is created where it is missing.
unfoldable pub zone_domain : Gorm → Settings → Text → Option Domain → Exec Database Domain
zone_domain db settings zone (some d) = pure d
zone_domain db settings zone none = create_row db domains_table (λ id at. record {
  id = id;
  name = zone;
  default_ttl = settings.default_ttl;
  enabled = true;
  wildcard = settings.allow_wildcard;
})

module _ (db : Gorm) (parse_ip : Text → Option (Bool × Text))
    (upsert : Text → Text → Text → Text → ℤ → Bool → Option Text) (settings : Settings)
    (auth : AuthContext) (r : UpdateRequest) where
  unfoldable pub update_parsed : Text → Text → Option (Bool × Text) → Exec Database UpdateResult
  unfolding zone_domain update_found sent_address
  update_parsed label zone none =
      reject db auth r none (text "badagent") bad_ip_text (sent_address r) DdnsError.bad_ip
  update_parsed label zone (some (is4, ip)) = do
    known ← first? db domains_table (enabled_zone zone)
    domain ← zone_domain db settings zone known
    host ← first? db hosts_table (host_where domain.id label)
    update_found db upsert auth r settings domain label zone (record_type_of is4) ip host

  unfoldable pub update_managed : Option (Text × Text) → Exec Database UpdateResult
  unfolding update_parsed
  update_managed none =
      reject db auth r none (text "notfqdn") not_fqdn_text r.requested_ip DdnsError.not_fqdn
  update_managed (some (label, zone)) = update_parsed label zone (parse_ip (sent_address r))

  -- Update
  unfoldable pub update_host : Exec Database UpdateResult
  unfolding update_managed
  update_host = update_managed (split_managed_fqdn settings.allowed_domains r.fqdn)
