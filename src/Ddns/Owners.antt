-- ===== src/Ddns/Owners.antt =====
-- Update and the hosts of other devices.
use olimpo.Common.{
  ℕ, ◌≡◌, refl, Bool, true, false, not, ◌&&◌, Option, none, some, ◌==◌, nat_eq, text_eq, Text,
  arith, find, ℤ,
}
use olimpo.Errors.{DdnsError}
use olimpo.Gorm.{Gorm, update_where}
use olimpo.Gorm.Keeps.{
  Keeps, if-Keeps, test-Keeps, bind-Keeps, pure-Keeps, refuse-Keeps, first?-Keeps_found,
}
use olimpo.Model.{Database, Domain, Host, domains_table, hosts_table}
use olimpo.Ddns.{AuthContext, split_managed_fqdn}
use olimpo.Ddns.Update.{
  Settings, UpdateRequest, log_update, store_host, after_upsert, update_found, zone_domain,
  update_parsed, update_managed, update_host, host_where, published, new_host, record_type_of,
  enabled_zone, sent_address,
}
use olimpo.Ddns.Kept.{
  OthersKept, OthersKept-refl, OthersKept-trans, create_domain-hosts, same_hosts,
}
use olimpo.Ddns.Steps.{
  leave_host-Keeps, log_update-Keeps, note_host-Keeps, reject-Keeps, save-Keeps,
  store_host-Keeps_new,
}

module _ (db : Gorm) (upsert : Text → Text → Text → Text → ℤ → Bool → Option Text)
    (auth : AuthContext) (r : UpdateRequest) where
  after_upsert-Keeps :
      (o : Option Text) (created : Bool) (record_type ip : Text) (h : Host) (s : Database)
      → Keeps
          (OthersKept auth.device.id)
          (store_host db auth r created (published ip record_type r.now h))
          s
      → Keeps
          (OthersKept auth.device.id)
          (after_upsert db upsert auth r o created record_type ip h)
          s
  unfolding after_upsert
  after_upsert-Keeps (some message) created record_type ip h s k =
      bind-Keeps (OthersKept auth.device.id) (OthersKept-refl auth.device.id)
        (OthersKept-trans auth.device.id) (log_update db auth r (some h) _ _ _ message ip) _ s
        (log_update-Keeps db auth r (some h) _ _ _ message ip s)
        (λ a t.
          refuse-Keeps (OthersKept auth.device.id) (OthersKept-refl auth.device.id)
            (OthersKept-trans auth.device.id) _ t)
  after_upsert-Keeps none created record_type ip h s k =
      note_host-Keeps db auth r created ip (published ip record_type r.now h) s k

  store_host-Keeps_old :
      (p : Host → Bool) (ip record_type : Text) (h : Host) (s : Database)
      → find p s.hosts ≡ some h
      → h.device_id ≡ auth.device.id
      → Keeps
          (OthersKept auth.device.id)
          (store_host db auth r false (published ip record_type r.now h))
          s
  unfolding store_host
  store_host-Keeps_old p ip record_type h s found own =
      bind-Keeps (OthersKept auth.device.id) (OthersKept-refl auth.device.id)
        (OthersKept-trans auth.device.id)
        (update_where db hosts_table (λ x. x.id == h.id)
          (λ x. record (published ip record_type r.now h) { id = x.id }))
        _ s
        (save-Keeps db auth r p h (λ x. record (published ip record_type r.now h) { id = x.id }) s
          found own (λ x. refl) refl refl refl)
        (λ a t.
          pure-Keeps (OthersKept auth.device.id) (OthersKept-refl auth.device.id)
            (OthersKept-trans auth.device.id) _ t)

  update_found-Keeps :
      (settings : Settings) (domain : Domain) (label zone record_type ip : Text) (p : Host → Bool)
      (s : Database)
      → Keeps
          (OthersKept auth.device.id)
          (update_found db upsert auth r settings domain label zone record_type ip (find p s.hosts))
          s
  unfolding update_found
  update_found-Keeps settings domain label zone record_type ip p s = go (find p s.hosts) refl
    where
      R : Database → Database → Type 0
      R = OthersKept auth.device.id

      go :
          (o : Option Host)
          → find p s.hosts ≡ o
          → Keeps
              (OthersKept auth.device.id)
              (update_found db upsert auth r settings domain label zone record_type ip o)
              s
      go none e =
          if-Keeps R (OthersKept-refl auth.device.id) (OthersKept-trans auth.device.id) _ _ _ s
            (reject-Keeps db auth r none _ _ ip DdnsError.bad_auth s)
            (after_upsert-Keeps
              (upsert label zone record_type ip domain.default_ttl domain.wildcard) true record_type
              ip (new_host auth domain label record_type) s
              (store_host-Keeps_new db auth r
                (published ip record_type r.now (new_host auth domain label record_type)) s))
      go (some h) e =
          test-Keeps R (not (h.device_id == auth.device.id)) _ _ s
            (λ t. reject-Keeps db auth r (some h) _ _ ip DdnsError.bad_auth s)
            λ t.
              let own : h.device_id ≡ auth.device.id = ground arith in
              test-Keeps R (h.ip_address == ip && h.record_type == record_type) _ _ s
                (λ u. leave_host-Keeps db auth r p ip h s e own)
                (λ u.
                  after_upsert-Keeps (upsert label zone record_type ip h.ttl domain.wildcard) false
                    record_type ip h s (store_host-Keeps_old p ip record_type h s e own))

-- The zone's domain is stored, if at all, beside the hosts.
zone_domain-Keeps :
    (d : ℕ) (db : Gorm) (settings : Settings) (zone : Text) (o : Option Domain) (s : Database)
    → Keeps (OthersKept d) (zone_domain db settings zone o) s
unfolding zone_domain
zone_domain-Keeps d db settings zone (some x) s =
    pure-Keeps (OthersKept d) (OthersKept-refl d) (OthersKept-trans d) x s
zone_domain-Keeps d db settings zone none s = record {
  kept = same_hosts d s _ (create_domain-hosts db _ s);
}

-- Whatever a device asks for, and however the call ends, every host stays, with its name, its zone and
-- its device, and a host of another device stays as it was, if the hosts are in the order of their
-- keys, which they then stay.
pub update_host-OthersKept :
    (db : Gorm) (parse_ip : Text → Option (Bool × Text))
    (upsert : Text → Text → Text → Text → ℤ → Bool → Option Text) (settings : Settings)
    (auth : AuthContext) (r : UpdateRequest) (s : Database)
    → OthersKept auth.device.id s (update_host db parse_ip upsert settings auth r s).1
unfolding update_host
update_host-OthersKept db parse_ip upsert settings auth r s =
    (managed (split_managed_fqdn settings.allowed_domains r.fqdn)).kept
  where
    R : Database → Database → Type 0
    R = OthersKept auth.device.id

    same : (t : Database) → R t t
    same = OthersKept-refl auth.device.id

    chain : (t u v : Database) → R t u → R u v → R t v
    chain = OthersKept-trans auth.device.id

    parsed :
        (label zone : Text) (o : Option (Bool × Text))
        → Keeps R (update_parsed db parse_ip upsert settings auth r label zone o) s
    parsed label zone none = reject-Keeps db auth r none _ _ (sent_address r) DdnsError.bad_ip s
    parsed label zone (some (is4, ip)) =
        first?-Keeps_found R same db domains_table (enabled_zone zone) _ s (
          bind-Keeps R same chain
            (zone_domain db settings zone (find (enabled_zone zone) s.domains)) _ s
            (zone_domain-Keeps auth.device.id db settings zone (find (enabled_zone zone) s.domains)
              s)
            λ domain t. first?-Keeps_found R same db hosts_table (host_where domain.id label) _ t (
              update_found-Keeps db upsert auth r settings domain label zone (record_type_of is4) ip
                (host_where domain.id label) t))

    managed :
        (o : Option (Text × Text)) → Keeps R (update_managed db parse_ip upsert settings auth r o) s
    managed none = reject-Keeps db auth r none _ _ r.requested_ip DdnsError.not_fqdn s
    managed (some (label, zone)) = parsed label zone (parse_ip (sent_address r))
