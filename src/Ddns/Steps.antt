-- ===== src/Ddns/Steps.antt =====
-- Each step of Update leaves the hosts of other devices as they are.
use olimpo.Common.{◌≡◌, refl, Bool, true, Option, some, ◌==◌, nat_eq, text_eq, Text, find}
use olimpo.Errors.{DdnsError}
use olimpo.Gorm.{Gorm, pure, ◌>>=◌, update_where}
use olimpo.Gorm.Keeps.{
  Keeps, bind-Keeps, pure-Keeps, refuse-Keeps, create_row-Keeps, update_where-Keeps,
}
use olimpo.Model.{Database, Device, Host, devices_table, hosts_table}
use olimpo.Ddns.{AuthContext}
use olimpo.Ddns.Update.{
  UpdateRequest, ignore, log_update, reject, leave_host, store_host, note_host, seen_at,
}
use olimpo.Ddns.Kept.{
  OthersKept, same_hosts, OthersKept-refl, OthersKept-trans, change_own, add_host,
  update_devices-hosts, create_log-hosts,
}

module _ (db : Gorm) (auth : AuthContext) (r : UpdateRequest) where
  pub log_update-hosts :
      (host : Option Host) (operation status response message sent : Text) (s : Database)
      → (log_update db auth r host operation status response message sent s).1.hosts ≡ s.hosts
  unfolding log_update
  log_update-hosts host operation status response message sent s = create_log-hosts db _ s

  pub log_update-Keeps :
      (host : Option Host) (operation status response message sent : Text) (s : Database)
      → Keeps
          (OthersKept auth.device.id)
          (log_update db auth r host operation status response message sent)
          s
  log_update-Keeps host operation status response message sent s = record {
    kept =
        same_hosts auth.device.id s _
          (log_update-hosts host operation status response message sent s);
  }

  pub reject-Keeps :
      {A : Type 0} (host : Option Host) (response message sent : Text) (e : DdnsError)
      (s : Database)
      → Keeps (OthersKept auth.device.id) (reject db auth r {A = A} host response message sent e) s
  reject-Keeps host response message sent e s =
      bind-Keeps (OthersKept auth.device.id) (OthersKept-refl auth.device.id)
        (OthersKept-trans auth.device.id) (log_update db auth r host _ _ response message sent) _ s
        (log_update-Keeps host _ _ response message sent s)
        (λ a t.
          refuse-Keeps (OthersKept auth.device.id) (OthersKept-refl auth.device.id)
            (OthersKept-trans auth.device.id) _ t)

  seen-Keeps :
      (f : Device → Device) (s : Database)
      → Keeps
          (OthersKept auth.device.id)
          (ignore (update_where db devices_table (λ x. x.id == auth.device.id) f))
          s
  unfolding ignore
  seen-Keeps f s = record {
    kept =
        same_hosts auth.device.id s _ (update_devices-hosts db (λ x. x.id == auth.device.id) f s);
  }

  -- Save of a host of the device.
  pub save-Keeps :
      (p : Host → Bool) (h : Host) (f : Host → Host) (s : Database)
      → find p s.hosts ≡ some h
      → h.device_id ≡ auth.device.id
      → ((x : Host) → (f x).id ≡ x.id)
      → ((f h).device_id ≡ h.device_id)
      → ((f h).domain_id ≡ h.domain_id)
      → ((f h).hostname ≡ h.hostname)
      → Keeps (OthersKept auth.device.id) (update_where db hosts_table (λ x. x.id == h.id) f) s
  save-Keeps p h f s found own keeps dev dom name =
      update_where-Keeps (OthersKept auth.device.id) (OthersKept-refl auth.device.id)
        (OthersKept-trans auth.device.id) db hosts_table _ f s
        (change_own auth.device.id s p h f found own keeps dev dom name)

  pub leave_host-Keeps :
      (p : Host → Bool) (ip : Text) (h : Host) (s : Database)
      → find p s.hosts ≡ some h
      → h.device_id ≡ auth.device.id
      → Keeps (OthersKept auth.device.id) (leave_host db auth r ip h) s
  unfolding leave_host ignore ◌>>=◌ pure
  leave_host-Keeps p ip h s found own =
      let d = auth.device.id in
      let s₁ : Database =
        (update_where db devices_table (λ x. x.id == auth.device.id) (seen_at r.now ip) s).1 in
      let e : s₁.hosts ≡ s.hosts =
        update_devices-hosts db (λ x. x.id == auth.device.id) (seen_at r.now ip) s in
      let s₂ : Database =
        (update_where db hosts_table (λ x. x.id == h.id) (λ x. record x { last_update = r.now })
          s₁).1 in
      record {
        kept =
            OthersKept-trans d s s₂ _
              (OthersKept-trans d s s₁ s₂ (same_hosts d s s₁ e)
                (save-Keeps p h (λ x. record x { last_update = r.now }) s₁ (rw e found) own
                  (λ x. refl) refl refl refl).kept)
              (log_update-Keeps (some h) _ _ _ _ ip s₂).kept;
      }

  pub store_host-Keeps_new :
      (h : Host) (s : Database) → Keeps (OthersKept auth.device.id) (store_host db auth r true h) s
  unfolding store_host
  store_host-Keeps_new h s =
      create_row-Keeps (OthersKept auth.device.id) (OthersKept-refl auth.device.id)
        (OthersKept-trans auth.device.id) db hosts_table _ s
        λ n at above. add_host auth.device.id s (record h { id = n }) above

  -- What follows the storing of the host.
  pub note_host-Keeps :
      (created : Bool) (ip : Text) (h : Host) (s : Database)
      → Keeps (OthersKept auth.device.id) (store_host db auth r created h) s
      → Keeps (OthersKept auth.device.id) (note_host db auth r created ip h) s
  unfolding note_host
  note_host-Keeps created ip h s k =
      let R = OthersKept auth.device.id in
      let same = OthersKept-refl auth.device.id in
      let chain = OthersKept-trans auth.device.id in
      bind-Keeps R same chain (store_host db auth r created h) _ s k λ stored t.
        bind-Keeps R same chain
          (ignore (update_where db devices_table (λ x. x.id == auth.device.id) (seen_at r.now ip)))
          _ t (seen-Keeps (seen_at r.now ip) t)
          λ u t₁.
            bind-Keeps R same chain (log_update db auth r (some stored) _ _ _ _ ip) _ t₁
              (log_update-Keeps (some stored) _ _ _ _ ip t₁) λ v t₂. pure-Keeps R same chain _ t₂
