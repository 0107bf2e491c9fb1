-- ===== src/Ddns/Hosts.antt =====
-- Update: what a successful call has done, and what each refusal says.
use olimpo.Common.{
  ℕ, List, ◌≢◌, subst, ◌≡◌, refl, ap, ◌∙◌, inl, inr, Bool, true, false, not, ◌&&◌, Option, none,
  some, ◌==◌, nat_eq, text_eq, text_beq_iff, Text, arith, find, find_holds, Ascending, ℤ,
}
use olimpo.Errors.{DdnsError, Refusal}
use olimpo.Gorm.{Gorm}
use olimpo.Gorm.Rules.{
  Ensures, Ensures-pure, Ensures-refuse, Ensures-if, Ensures-bind, Ensures-weaken, Ensures-refusals,
}
use olimpo.Gorm.Statements.{first?-Ensures, create_row-Ensures_last}
use olimpo.Model.{Database, Domain, Host, domains_table, hosts_table}
use olimpo.Ddns.{AuthContext, can_autocreate, split_managed_fqdn}
use olimpo.Ddns.Update.{
  Settings, UpdateRequest, UpdateResult, log_update, leave_host, store_host, after_upsert,
  update_found, zone_domain, update_parsed, update_managed, update_host, host_where, published,
  new_host, record_type_of, enabled_zone, sent_address,
}
use olimpo.Ddns.Stored.{
  Answered, Holds, HostUpdated, HostRefused, IsHost, IsZone, StoredAs, UpdateRefused,
  leave_host-Ensures, log-Ensures, note_host-Ensures, reject-Ensures, store_host-Ensures_new,
  store_host-Ensures_old,
}

module _ (db : Gorm) (parse_ip : Text → Option (Bool × Text))
    (upsert : Text → Text → Text → Text → ℤ → Bool → Option Text) (settings : Settings)
    (auth : AuthContext) (r : UpdateRequest) where
  -- What the rest of the call has to show, once the name is split and the address is read.
  abbrev Done : Domain → Text → Text → Text → Text → UpdateResult → Database → Type 0
  Done domain label zone record_type ip result t =
      Holds parse_ip upsert settings auth r domain.id label record_type ip result t
      × Answered parse_ip upsert settings auth r domain label zone record_type ip result

  abbrev Refused : Domain → Text → Text → Text → Text → List Host → Refusal → Type 0
  Refused = HostRefused parse_ip upsert settings auth r

  -- The host that is published, up to its key.
  abbrev IsPublished : Host → Text → Text → Host → Type 0
  IsPublished h record_type ip x = x ≡ record (published ip record_type r.now h) { id = x.id }

  after_upsert-Ensures :
      (created : Bool) (domain : Domain) (label zone record_type ip : Text) (h : Host)
      (hosts : List Host) (s : Database)
      → h.device_id ≡ auth.device.id
      → h.domain_id ≡ domain.id
      → h.hostname ≡ label
      → Ensures
          (λ x t. IsPublished h record_type ip x × StoredAs x t)
          (Refused domain label zone record_type ip hosts)
          (store_host db auth r created (published ip record_type r.now h))
          s
      → Ensures
          (Done domain label zone record_type ip)
          (Refused domain label zone record_type ip hosts)
          (after_upsert db upsert auth r
            (upsert label zone record_type ip h.ttl domain.wildcard)
            created
            record_type
            ip
            h)
          s
  unfolding after_upsert
  after_upsert-Ensures created domain label zone record_type ip h hosts s own inside name k =
      go (upsert label zone record_type ip h.ttl domain.wildcard) refl
    where
      go :
          (o : Option Text)
          → upsert label zone record_type ip h.ttl domain.wildcard ≡ o
          → Ensures
              (Done domain label zone record_type ip)
              (Refused domain label zone record_type ip hosts)
              (after_upsert db upsert auth r o created record_type ip h)
              s
      go (some message) e =
          Ensures-bind (λ u t. t.hosts ≡ s.hosts) (log_update db auth r (some h) _ _ _ message ip) _
            s (log-Ensures db auth r (some h) _ _ _ message ip s)
            (λ u t m. Ensures-refuse _ t (inr (refl, (h.ttl, message, e))))
      go none e =
          Ensures-weaken _ s
            (λ result t (p, at, i, c, g).
              let as_published : IsHost parse_ip upsert settings auth r domain.id label record_type
                  ip result.host =
                (
                  ap (λ x. x.device_id) p ∙ own,
                  ap (λ x. x.domain_id) p ∙ inside,
                  ap (λ x. x.hostname) p ∙ name,
                  ap (λ x. x.ip_address) p,
                  ap (λ x. x.record_type) p,
                ) in
              (
                (i, as_published, (result.host, at, as_published)),
                inr (c, g, rw (ap (λ x. x.ttl) p) e),
              ))
            (note_host-Ensures db auth r created ip (published ip record_type r.now h) s
              (IsPublished h record_type ip) k)

  barred : (b : Bool) → not b ≡ true → b ≡ false
  barred b t = ground arith

  foreign : (m n : ℕ) → not (m == n) ≡ true → m ≢ n
  foreign m n t = ground arith

  update_found-Ensures :
      (domain : Domain) (label zone record_type ip : Text) (s : Database)
      → Ascending (λ x. x.id) s.hosts
      → Ensures
          (Done domain label zone record_type ip)
          (Refused domain label zone record_type ip s.hosts)
          (update_found db upsert auth r settings domain label zone record_type ip
            (find (host_where domain.id label) s.hosts))
          s
  unfolding update_found
  update_found-Ensures domain label zone record_type ip s a =
      go (find (host_where domain.id label) s.hosts) refl
    where
      unchanged :
          (h : Host)
          → find (host_where domain.id label) s.hosts ≡ some h
          → h.device_id ≡ auth.device.id
          → h.domain_id ≡ domain.id
          → h.hostname ≡ label
          → h.ip_address ≡ ip
          → h.record_type ≡ record_type
          → Ensures
              (Done domain label zone record_type ip)
              (Refused domain label zone record_type ip s.hosts)
              (leave_host db auth r ip h)
              s
      unchanged h e own inside named address family =
          Ensures-weaken _ s
            (λ result t (c, g, i, k, (x, at, how)).
              let stored : IsHost parse_ip upsert settings auth r domain.id label record_type ip x =
                elim how [
                  | inl y ↦ rw y (own, inside, named, address, family)
                  | inr y ↦ rw y (own, inside, named, address, family)
                ] in
              (
                (
                  i,
                  (
                    ap (λ z. z.device_id) k ∙ own,
                    ap (λ z. z.domain_id) k ∙ inside,
                    ap (λ z. z.hostname) k ∙ named,
                    ap (λ z. z.ip_address) k ∙ address,
                    ap (λ z. z.record_type) k ∙ family,
                  ),
                  (x, rw (ap (λ z. z.id) k) at, stored),
                ),
                inl (c, g),
              ))
            (leave_host-Ensures db auth r (host_where domain.id label) ip h s a e)

      go :
          (o : Option Host)
          → find (host_where domain.id label) s.hosts ≡ o
          → Ensures
              (Done domain label zone record_type ip)
              (Refused domain label zone record_type ip s.hosts)
              (update_found db upsert auth r settings domain label zone record_type ip o)
              s
      go none e =
          Ensures-if (not (can_autocreate settings.autocreate_policy auth.device.name label)) _ _ s
            (λ t.
              reject-Ensures db auth r none _ _ ip DdnsError.bad_auth s
                (inl (refl, inl (e, barred _ t))))
            (λ t.
              after_upsert-Ensures true domain label zone record_type ip
                (new_host auth domain label record_type) s.hosts s refl refl refl
                (store_host-Ensures_new db auth r
                  (published ip record_type r.now (new_host auth domain label record_type)) s))
      go (some h) e =
          let inside : h.domain_id ≡ domain.id =
            ground (arith, find_holds (host_where domain.id label) s.hosts h e) in
          let named : h.hostname ≡ label =
            (text_beq_iff h.hostname label).0
              (ground (arith, find_holds (host_where domain.id label) s.hosts h e)) in
          Ensures-if (not (h.device_id == auth.device.id)) _ _ s
            (λ t.
              reject-Ensures db auth r (some h) _ _ ip DdnsError.bad_auth s
                (inl (refl, inr (h, e, foreign _ _ t))))
            λ t.
              let own : h.device_id ≡ auth.device.id = ground arith in
              Ensures-if (h.ip_address == ip && h.record_type == record_type) _ _ s
                (λ u.
                  unchanged h e own inside named ((text_beq_iff h.ip_address ip).0 (ground arith))
                    ((text_beq_iff h.record_type record_type).0 (ground arith)))
                (λ u.
                  after_upsert-Ensures false domain label zone record_type ip h s.hosts s own inside
                    named
                    (Ensures-weaken _ s (λ x t' (same, at). (rw same refl, at))
                      (store_host-Ensures_old db auth r (host_where domain.id label) h
                        (published ip record_type r.now h) s a e refl)))

  zone_domain-Ensures :
      {B : Refusal → Type 0} (zone : Text) (o : Option Domain) (s : Database)
      → find (enabled_zone zone) s.domains ≡ o
      → Ensures
          (λ d t. IsZone parse_ip upsert settings auth r s.domains zone d × (t.hosts ≡ s.hosts))
          B
          (zone_domain db settings zone o)
          s
  unfolding zone_domain
  zone_domain-Ensures zone (some d) s h = Ensures-pure d s (inl h, refl)
  zone_domain-Ensures zone none s h =
      create_row-Ensures_last db domains_table _ s
        (λ n at pos above. (inr (h, refl, refl, above), refl))

  pub update_host_Sound :
      (s : Database)
      → Ascending (λ x. x.id) s.hosts
      → Ensures
          (HostUpdated parse_ip upsert settings auth r s)
          (UpdateRefused parse_ip upsert settings auth r s)
          (update_host db parse_ip upsert settings auth r)
          s
  unfolding update_host
  update_host_Sound s a = managed (split_managed_fqdn settings.allowed_domains r.fqdn) refl
    where
      parsed :
          (label zone : Text)
          → split_managed_fqdn settings.allowed_domains r.fqdn ≡ some (label, zone)
          → (o : Option (Bool × Text)) → parse_ip (sent_address r) ≡ o
          → Ensures
              (HostUpdated parse_ip upsert settings auth r s)
              (UpdateRefused parse_ip upsert settings auth r s)
              (update_parsed db parse_ip upsert settings auth r label zone o)
              s
      parsed label zone name none e =
          reject-Ensures db auth r none _ _ (sent_address r) DdnsError.bad_ip s
            (inr (inl (refl, e)))
      parsed label zone name (some (is4, ip)) e =
          first?-Ensures db domains_table (enabled_zone zone) _ s (
            Ensures-bind _ _ _ s (zone_domain-Ensures zone _ s refl) λ domain t (in_zone, same).
              first?-Ensures db hosts_table (host_where domain.id label) _ t (
                Ensures-refusals _ _
                  (λ why no. inr (
                    inr (
                      label,
                      zone,
                      is4,
                      ip,
                      domain,
                      name,
                      e,
                      in_zone,
                      subst (λ hs. Refused domain label zone (record_type_of is4) ip hs why) same
                          no,
                    )))
                  (Ensures-weaken _ t
                    (λ result t' (h, answer).
                      (label, zone, is4, ip, domain, name, e, in_zone, h, answer))
                    (update_found-Ensures domain label zone (record_type_of is4) ip t
                      (rw same a)))))

      managed :
          (o : Option (Text × Text))
          → split_managed_fqdn settings.allowed_domains r.fqdn ≡ o
          → Ensures
              (HostUpdated parse_ip upsert settings auth r s)
              (UpdateRefused parse_ip upsert settings auth r s)
              (update_managed db parse_ip upsert settings auth r o)
              s
      managed none e =
          reject-Ensures db auth r none _ _ r.requested_ip DdnsError.not_fqdn s (inl (refl, e))
      managed (some (label, zone)) e = parsed label zone e (parse_ip (sent_address r)) refl
