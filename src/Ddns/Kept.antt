-- ===== src/Ddns/Kept.antt =====
-- What a device may do to the hosts, and the statements that stay within it.
use mathlib.Core.Option.{some-injective}
use olimpo.Common.{
  ℕ, ◌≡◌, ◌⊎◌, refl, sym, subst, ap, ◌∙◌, inl, inr, Bool, some, [], ◌∷◌, ◌++◌, ◌==◌, nat_eq,
  nat_beq_iff, text_eq, find, find_holds, find-by_id, by_id, Ascending, update_rows,
  update_rows-Ascending, append-Ascending, find-append_old, find-update_hit, find-update_miss,
  Bool-cases, All, ◌<◌,
}
use olimpo.Gorm.{Gorm, update_where, create_row}
use olimpo.Model.{
  Database, Device, Domain, Host, UpdateLog, domains_table, devices_table, update_logs_table,
}

-- What a device may do to the hosts: every host stays, with its name and its device, and a host of
-- another device stays as it is. Primary keys rise along the table.
pub record OthersKept (device_id : ℕ) (s t : Database) : Type 0 where
  pub ordered : Ascending (λ h. h.id) s.hosts → Ascending (λ h. h.id) t.hosts
  pub kept :
      Ascending (λ h. h.id) s.hosts
      → (i : ℕ) (x : Host) → find (by_id (λ h. h.id) i) s.hosts ≡ some x
      → (y : Host) × (find (by_id (λ h. h.id) i) t.hosts ≡ some y)
        × (y.device_id ≡ x.device_id)
        × (y.domain_id ≡ x.domain_id)
        × (y.hostname ≡ x.hostname)
        × ((x.device_id ≡ device_id) ⊎ (y ≡ x))

module _ (d : ℕ) where
  pub same_hosts : (s t : Database) → t.hosts ≡ s.hosts → OthersKept d s t
  same_hosts s t e = record {
    ordered = λ a. rw e a;
    kept = λ a i x h. (x, rw e h, refl, refl, refl, inr refl);
  }

  pub OthersKept-refl : (s : Database) → OthersKept d s s
  OthersKept-refl s = same_hosts s s refl

  pub OthersKept-trans : (s t u : Database) → OthersKept d s t → OthersKept d t u → OthersKept d s u
  OthersKept-trans s t u h k = record {
    ordered = λ a. k.ordered (h.ordered a);
    kept = λ a i x f.
        let (y, g, c, m, n, o) = h.kept a i x f in
        let (z, g', c', m', n', o') = k.kept (h.ordered a) i y g in
        (
          z,
          g',
          c' ∙ c,
          m' ∙ m,
          n' ∙ n,
          elim o [
            | inl own ↦ inl own
            | inr same ↦ elim o' [ inl own ↦ inl (sym c ∙ own) | inr again ↦ inr (again ∙ same) ]
          ],
        );
  }

  -- The row of a host of the device is changed, but for its name and its device.
  pub change_own :
      (s : Database) (p : Host → Bool) (h : Host) (f : Host → Host)
      → find p s.hosts ≡ some h
      → h.device_id ≡ d
      → ((x : Host) → (f x).id ≡ x.id)
      → ((f h).device_id ≡ h.device_id)
      → ((f h).domain_id ≡ h.domain_id)
      → ((f h).hostname ≡ h.hostname)
      → OthersKept d s (record s { hosts = update_rows (λ x. x.id == h.id) f s.hosts })
  change_own s p h f found own keeps dev dom name = record {
    ordered = λ a. update_rows-Ascending (λ x. x.id) (λ x. x.id == h.id) f s.hosts keeps a;
    kept = λ a i x g. elim (Bool-cases (x.id == h.id)) [
      | inl t ↦
          let key : x.id ≡ h.id = (nat_beq_iff x.id h.id).0 t in
          let at : x.id ≡ i =
            (nat_beq_iff x.id i).0 (find_holds (by_id (λ h. h.id) i) s.hosts x g) in
          let there : find (by_id (λ h. h.id) i) s.hosts ≡ some h =
            subst (λ k. find (by_id (λ h. h.id) k) s.hosts ≡ some h) (sym key ∙ at)
              (find-by_id (λ h. h.id) p s.hosts h a found) in
          let same : h ≡ x = some-injective h x (sym there ∙ g) in
          (
            f x,
            find-update_hit (λ h. h.id) (λ x. x.id == h.id) f s.hosts keeps i x g t,
            subst (λ z. (f z).device_id ≡ z.device_id) same dev,
            subst (λ z. (f z).domain_id ≡ z.domain_id) same dom,
            subst (λ z. (f z).hostname ≡ z.hostname) same name,
            inl (sym (ap (λ z. z.device_id) same) ∙ own),
          )
      | inr t ↦ (
        x,
        find-update_miss (λ h. h.id) (λ x. x.id == h.id) f s.hosts keeps i x g t,
        refl,
        refl,
        refl,
        inr refl,
      )
    ];
  }

  pub add_host :
      (s : Database) (h : Host)
      → All (λ x. x.id < h.id) s.hosts
      → OthersKept d s (record s { hosts = s.hosts ++ h ∷ [] })
  add_host s h above = record {
    ordered = λ a. append-Ascending (λ x. x.id) s.hosts h a above;
    kept = λ a i x g. (x, find-append_old (λ h. h.id) i s.hosts h x g, refl, refl, refl, inr refl);
  }

module _ (db : Gorm) where
  -- The log and the devices are other tables.
  pub update_devices-hosts :
      (p : Device → Bool) (f : Device → Device) (s : Database)
      → (update_where db devices_table p f s).1.hosts ≡ s.hosts
  unfolding update_where
  update_devices-hosts p f s = elim (db.update_law p f s.devices) [
    | inl e ↦ rw e refl
    | inr e ↦ rw e refl
  ]

  pub create_log-hosts :
      (mk : ℕ → ℕ → UpdateLog) (s : Database)
      → (create_row db update_logs_table mk s).1.hosts ≡ s.hosts
  unfolding create_row
  create_log-hosts mk s = elim (db.create_law (λ x. x.id) mk s.update_logs) [
    | inl (n, at, e, pos, above) ↦ rw e refl
    | inr e ↦ rw e refl
  ]

  pub create_domain-hosts :
      (mk : ℕ → ℕ → Domain) (s : Database) → (create_row db domains_table mk s).1.hosts ≡ s.hosts
  unfolding create_row
  create_domain-hosts mk s = elim (db.create_law (λ x. x.id) mk s.domains) [
    | inl (n, at, e, pos, above) ↦ rw e refl
    | inr e ↦ rw e refl
  ]
