-- ===== src/Ddns/Stored.antt =====
-- What a call of Update ends with, and the rules for its last steps: the log, the device and the host.
use olimpo.Common.{
  ℕ, List, All, ◌<◌, ◌≢◌, false, ◌≡◌, ◌⊎◌, refl, sym, ◌∙◌, inl, inr, Bool, true, false, Option,
  none, some, ◌==◌, nat_eq, nat_beq_iff, text_eq, Text, find, find-by_id, by_id, Ascending,
  find-append, find-update_hit, ℤ,
}
use olimpo.Errors.{DdnsError, Refusal, ddns}
use olimpo.Gorm.{Gorm, update_where}
use olimpo.Gorm.Rules.{Ensures, Ensures-pure, Ensures-refuse, Ensures-bind}
use olimpo.Gorm.Statements.{create_row-Ensures_last, update_where-Ensures}
use olimpo.Model.{Database, Device, Domain, Host, devices_table, hosts_table}
use olimpo.Text.{text}
use olimpo.Ddns.{AuthContext, can_autocreate, split_managed_fqdn}
use olimpo.Ddns.Update.{
  Settings, UpdateRequest, UpdateResult, ignore, log_update, reject, leave_host, store_host,
  note_host, seen_at, record_type_of, sent_address, enabled_zone, host_where,
}
use olimpo.Ddns.Kept.{update_devices-hosts}
use olimpo.Ddns.Steps.{log_update-hosts}

module _ (parse_ip : Text → Option (Bool × Text))
    (upsert : Text → Text → Text → Text → ℤ → Bool → Option Text) (settings : Settings)
    (auth : AuthContext) (r : UpdateRequest) where
  -- The enabled domain of the zone, or a new one where there is none.
  abbrev pub IsZone : List Domain → Text → Domain → Type 0
  IsZone domains zone d =
      (find (enabled_zone zone) domains ≡ some d)
      ⊎ ((find (enabled_zone zone) domains ≡ none)
          × (d.name ≡ zone)
          × (d.enabled ≡ true)
          × All (λ x. x.id < d.id) domains)

  -- A host of the device, in the domain, with the name, the address and the family.
  abbrev pub IsHost : ℕ → Text → Text → Text → Host → Type 0
  IsHost domain_id label record_type ip h =
      (h.device_id ≡ auth.device.id)
      × (h.domain_id ≡ domain_id)
      × (h.hostname ≡ label)
      × (h.ip_address ≡ ip)
      × (h.record_type ≡ record_type)

  -- The host that a call ends with, as returned and as stored.
  abbrev pub Holds : ℕ → Text → Text → Text → UpdateResult → Database → Type 0
  Holds domain_id label record_type ip result t =
      (result.ip ≡ ip)
      × IsHost domain_id label record_type ip result.host
      × ((x : Host) × (find (by_id (λ h. h.id) result.host.id) t.hosts ≡ some x)
          × IsHost domain_id label record_type ip x)

  -- Either nothing had to change, or the DNS server has taken the record.
  abbrev pub Answered : Domain → Text → Text → Text → Text → UpdateResult → Type 0
  Answered domain label zone record_type ip result =
      ((result.code ≡ text "nochg") × (result.changed ≡ false))
      ⊎ ((result.code ≡ text "good")
          × (result.changed ≡ true)
          × (upsert label zone record_type ip result.host.ttl domain.wildcard ≡ none))

  abbrev pub HostUpdated : Database → UpdateResult → Database → Type 0
  HostUpdated s result t =
      (label : Text) × (zone : Text) × (is4 : Bool) × (ip : Text) × (domain : Domain)
      × (split_managed_fqdn settings.allowed_domains r.fqdn ≡ some (label, zone))
      × (parse_ip (sent_address r) ≡ some (is4, ip))
      × IsZone s.domains zone domain
      × Holds domain.id label (record_type_of is4) ip result t
      × Answered domain label zone (record_type_of is4) ip result

  -- Why a host is refused: there is none of that name and the device may not create it, or it is
  -- another device's; or the DNS server did not take the record.
  abbrev pub HostRefused : Domain → Text → Text → Text → Text → List Host → Refusal → Type 0
  HostRefused domain label zone record_type ip hosts e =
      ((e ≡ ddns DdnsError.bad_auth)
        × (((find (host_where domain.id label) hosts ≡ none)
              × (can_autocreate settings.autocreate_policy auth.device.name label ≡ false))
            ⊎ ((h : Host) × (find (host_where domain.id label) hosts ≡ some h)
                × (h.device_id ≢ auth.device.id))))
      ⊎ ((e ≡ ddns DdnsError.dns_update)
          × ((ttl : ℤ) × (message : Text) × (upsert label zone record_type ip ttl domain.wildcard
                ≡ some message)))

  abbrev pub UpdateRefused : Database → Refusal → Type 0
  UpdateRefused s e =
      ((e ≡ ddns DdnsError.not_fqdn) × (split_managed_fqdn settings.allowed_domains r.fqdn ≡ none))
      ⊎ ((e ≡ ddns DdnsError.bad_ip) × (parse_ip (sent_address r) ≡ none))
      ⊎ ((label : Text) × (zone : Text) × (is4 : Bool) × (ip : Text) × (domain : Domain)
          × (split_managed_fqdn settings.allowed_domains r.fqdn ≡ some (label, zone))
          × (parse_ip (sent_address r) ≡ some (is4, ip))
          × IsZone s.domains zone domain
          × HostRefused domain label zone (record_type_of is4) ip s.hosts e)

-- The stored row of the key of the host.
abbrev pub StoredAs : Host → Database → Type 0
StoredAs h t = find (by_id (λ x. x.id) h.id) t.hosts ≡ some h

module _ (db : Gorm) (auth : AuthContext) (r : UpdateRequest) {B : Refusal → Type 0} where
  pub log-Ensures :
      (host : Option Host) (operation status response message sent : Text) (s : Database)
      → Ensures
          (λ u t. t.hosts ≡ s.hosts)
          B
          (log_update db auth r host operation status response message sent)
          s
  unfolding log_update
  log-Ensures host operation status response message sent s = record {
    holds = log_update-hosts db auth r host operation status response message sent s;
  }

  seen-Ensures :
      (f : Device → Device) (s : Database)
      → Ensures
          (λ u t. t.hosts ≡ s.hosts)
          B
          (ignore (update_where db devices_table (λ x. x.id == auth.device.id) f))
          s
  unfolding ignore
  seen-Ensures f s = record { holds = update_devices-hosts db (λ x. x.id == auth.device.id) f s }

  pub reject-Ensures :
      {A : Type 0} {G : A → Database → Type 0} (host : Option Host) (response message sent : Text)
      (e : DdnsError) (s : Database)
      → B (ddns e)
      → Ensures G B (reject db auth r host response message sent e) s
  reject-Ensures host response message sent e s b =
      Ensures-bind (λ u t. t.hosts ≡ s.hosts) (log_update db auth r host _ _ response message sent)
        _ s (log-Ensures host _ _ response message sent s) (λ u t k. Ensures-refuse _ t b)

  pub store_host-Ensures_new :
      (h : Host) (s : Database)
      → Ensures
          (λ x t. (x ≡ record h { id = x.id }) × StoredAs x t)
          B
          (store_host db auth r true h)
          s
  unfolding store_host
  store_host-Ensures_new h s = create_row-Ensures_last db hosts_table _ s λ n at pos above. (
    refl,
    find-append (λ x. x.id) n s.hosts (record h { id = n }) above
        ∙ rw ((nat_beq_iff n n).1 refl) refl,
  )

  pub note_host-Ensures :
      (created : Bool) (ip : Text) (h : Host) (s : Database) (P : Host → Type 0)
      → Ensures (λ x t. P x × StoredAs x t) B (store_host db auth r created h) s
      → Ensures
          (λ result t.
            P result.host
            × StoredAs result.host t
            × (result.ip ≡ ip)
            × (result.code ≡ text "good")
            × (result.changed ≡ true))
          B
          (note_host db auth r created ip h)
          s
  unfolding note_host
  note_host-Ensures created ip h s P k =
      Ensures-bind _ (store_host db auth r created h) _ s k λ x t (p, at).
        Ensures-bind (λ u t₁. t₁.hosts ≡ t.hosts)
          (ignore (update_where db devices_table (λ y. y.id == auth.device.id) (seen_at r.now ip)))
          _ t (seen-Ensures (seen_at r.now ip) t)
          λ u t₁ e₁.
            Ensures-bind (λ v t₂. t₂.hosts ≡ t₁.hosts) (log_update db auth r (some x) _ _ _ _ ip) _
              t₁ (log-Ensures (some x) _ _ _ _ ip t₁)
              λ v t₂ e₂. Ensures-pure _ t₂ (p, rw (e₂, e₁) at, refl, refl, refl)

  -- Save: the host of that key is stored.
  pub store_host-Ensures_old :
      (p : Host → Bool) (g h : Host) (s : Database)
      → Ascending (λ x. x.id) s.hosts
      → find p s.hosts ≡ some g
      → h.id ≡ g.id
      → Ensures (λ x t. (x ≡ h) × StoredAs x t) B (store_host db auth r false h) s
  unfolding store_host
  store_host-Ensures_old p g h s a found key =
      update_where-Ensures db hosts_table (λ x. x.id == h.id) (λ x. record h { id = x.id }) _ s
        (Ensures-pure h _ (
          refl,
          find-update_hit (λ x. x.id) (λ x. x.id == h.id) (λ x. record h { id = x.id }) s.hosts
                (λ x. refl) h.id g (rw key (find-by_id (λ x. x.id) p s.hosts g a found))
                ((nat_beq_iff g.id h.id).1 (sym key))
              ∙ rw key refl,
        ))

  -- The address is left, and so is what the host's row says of it.
  pub leave_host-Ensures :
      (p : Host → Bool) (ip : Text) (h : Host) (s : Database)
      → Ascending (λ x. x.id) s.hosts
      → find p s.hosts ≡ some h
      → Ensures
          (λ result t.
            (result.code ≡ text "nochg")
            × (result.changed ≡ false)
            × (result.ip ≡ ip)
            × (result.host ≡ record h { last_update = r.now })
            × ((x : Host) × (find (by_id (λ y. y.id) h.id) t.hosts ≡ some x)
                × ((x ≡ h) ⊎ (x ≡ record h { last_update = r.now }))))
          B
          (leave_host db auth r ip h)
          s
  unfolding leave_host update_where
  leave_host-Ensures p ip h s a found =
      Ensures-bind (λ u t. t.hosts ≡ s.hosts) _ _ s (seen-Ensures (seen_at r.now ip) s)
        λ u t₁ e₁.
          Ensures-bind
            (λ v t.
              (x : Host) × (find (by_id (λ y. y.id) h.id) t.hosts ≡ some x)
              × ((x ≡ h) ⊎ (x ≡ record h { last_update = r.now })))
            (ignore (
              update_where db hosts_table (λ x. x.id == h.id)
                (λ x. record x { last_update = r.now })))
            _ t₁ (touched t₁ (rw e₁ (find-by_id (λ x. x.id) p s.hosts h a found)))
            λ v t₂ (x, at, how).
              Ensures-bind (λ w t. t.hosts ≡ t₂.hosts) (log_update db auth r (some h) _ _ _ _ ip) _
                t₂ (log-Ensures (some h) _ _ _ _ ip t₂)
                λ w t₃ e₃. Ensures-pure _ t₃ (refl, refl, refl, refl, (x, rw e₃ at, how))
    where
      touched :
          (t : Database)
          → find (by_id (λ y. y.id) h.id) t.hosts ≡ some h
          → Ensures
              (λ v t'.
                (x : Host) × (find (by_id (λ y. y.id) h.id) t'.hosts ≡ some x)
                × ((x ≡ h) ⊎ (x ≡ record h { last_update = r.now })))
              B
              (ignore (
                update_where db hosts_table
                  (λ x. x.id == h.id)
                  (λ x. record x { last_update = r.now })))
              t
      touched t there =
          elim (db.update_law (λ x. x.id == h.id) (λ x. record x { last_update = r.now }) t.hosts) [
            | inl e ↦ record {
              holds = rw e (
                record h { last_update = r.now },
                find-update_hit (λ x. x.id) (λ x. x.id == h.id)
                    (λ x. record x { last_update = r.now }) t.hosts (λ x. refl) h.id h there
                    ((nat_beq_iff h.id h.id).1 refl),
                inr refl,
              );
            }
            | inr e ↦ record { holds = rw e (h, there, inl refl) }
          ]
