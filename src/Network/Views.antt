-- ===== src/Network/Views.antt =====
-- Context and ListContexts: the two ways to one view of a device.
use mathlib.Core.List.{Permᴰ}
use mathlib.Core.Option.{none-ne-some}
use olimpo.Common.{
  ℕ, ◌≡◌, refl, sym, subst, ◌∙◌, inl, inr, true, false, Option, none, some, List, [], ◌∷◌, ◌==◌,
  nat_eq, nat_beq_iff, find, find_holds, select, All, Bool-cases, Sorted, select-Permᴰ,
  select-Sorted,
}
use olimpo.Errors.{NetworkError, network}
use olimpo.Gorm.{Gorm}
use olimpo.Gorm.Rules.{Ensures, Ensures-pure}
use olimpo.Gorm.Statements.{
  first_or-Ensures, first?-Ensures, ordered_rows-Ensures, find_rows-Ensures,
}
use olimpo.Model.{
  Database, Device, NetworkIdentitySnapshot, NetworkWan, NetworkSegment, devices_table,
  network_snapshots_table, network_wans_table, network_segments_table,
}
use olimpo.Grouping.{
  device_less, group_rows, index_rows, OnePerDevice, select-every, group_rows-select,
  index_rows-find, or_else-none, device_less-IsOrder,
}
use olimpo.Network.Report.{
  DeviceNetworkContext, wan_of, segment_of, snapshot_of, wan_less, segment_less,
}
use olimpo.Network.Replaced.{wan_less-IsOrder, segment_less-IsOrder}
use olimpo.Network.Recorded.{IsRecorded, HasSnapshot, All-weaken}
use olimpo.Network.Contexts.{
  is_reported, context_entries, context_found, network_context, list_contexts,
}

-- A view of a device: its snapshot, if it has one, and all its interfaces and networks, in order.
abbrev pub ShowsKey : Database → ℕ → Device → DeviceNetworkContext → Type 0
ShowsKey s device_id d c =
    (c.device ≡ d)
    × (c.snapshot ≡ find (snapshot_of device_id) s.network_snapshots)
    × (c.reported ≡ is_reported c.snapshot)
    × Permᴰ (select (wan_of device_id) s.network_wans) c.wans
    × Sorted wan_less c.wans
    × Permᴰ (select (segment_of device_id) s.network_segments) c.networks
    × Sorted segment_less c.networks

abbrev pub Shows : Database → Device → DeviceNetworkContext → Type 0
Shows s d c = ShowsKey s d.id d c

-- One view for each device, in the devices' order.
abbrev pub ShowsAll : Database → List Device → List DeviceNetworkContext → Type 0
ShowsAll s [] [] = Unit
ShowsAll s [] (c ∷ cs) = ⊥
ShowsAll s (d ∷ ds) [] = ⊥
ShowsAll s (d ∷ ds) (c ∷ cs) = Shows s d c × ShowsAll s ds cs

module _ {Row : Type 0} where
  -- No row of a device is selected where none belongs to a device with a snapshot.
  select-nobody :
      (device_of : Row → ℕ) (rows : List NetworkIdentitySnapshot) (d : ℕ) (xs : List Row)
      → find (snapshot_of d) rows ≡ none
      → All (λ r. HasSnapshot rows (device_of r)) xs
      → select (λ r. device_of r == d) xs ≡ []
  unfolding select
  select-nobody device_of rows d [] h k = refl
  select-nobody device_of rows d (x ∷ xs) h ((y, e), k) = elim (Bool-cases (device_of x == d)) [
    | inl t ↦
        let same : device_of x ≡ d = (nat_beq_iff (device_of x) d).0 t in
        absurd (none-ne-some y (sym h ∙ subst (λ n. find (snapshot_of n) rows ≡ some y) same e))
    | inr t ↦ rw t (select-nobody device_of rows d xs h k)
  ]

module _ (db : Gorm) (s : Database) where
  -- Context of a device that exists is a view of it, and leaves the database as it is, where every
  -- stored interface and network belongs to a device with a snapshot. The only refusal is that there
  -- is no such device.
  pub network_context-Shows :
      (device_id : ℕ)
      → IsRecorded s
      → Ensures
          (λ c s'.
            (d : Device) × (find (λ x. x.id == device_id) s.devices ≡ some d)
            × Shows s d c
            × (s' ≡ s))
          (λ r.
            (r ≡ network NetworkError.device_not_found)
            × (find (λ x. x.id == device_id) s.devices ≡ none))
          (network_context db device_id)
          s
  unfolding network_context
  network_context-Shows device_id recorded =
      first_or-Ensures db devices_table _ _ _ s (λ absent. (refl, absent))
        λ d present.
          let own : d.id ≡ device_id =
            (nat_beq_iff d.id device_id).0 (find_holds _ s.devices d present) in
          first?-Ensures db network_snapshots_table _ _ s
            (go d present (sym own) (find (snapshot_of device_id) s.network_snapshots) refl)
    where
      go :
          (d : Device)
          → find (λ x. x.id == device_id) s.devices ≡ some d
          → device_id ≡ d.id
          → (o : Option NetworkIdentitySnapshot)
          → find (snapshot_of device_id) s.network_snapshots ≡ o
          → Ensures
              (λ c s'.
                (x : Device) × (find (λ y. y.id == device_id) s.devices ≡ some x)
                × Shows s x c
                × (s' ≡ s))
              (λ r.
                (r ≡ network NetworkError.device_not_found)
                × (find (λ x. x.id == device_id) s.devices ≡ none))
              (context_found db device_id d o)
              s
      go d present own none e = Ensures-pure _ s (
        d,
        present,
        subst
            (λ k.
              ShowsKey s k d
                record { device = d; reported = false; snapshot = none; wans = []; networks = [] })
            own
            (
              refl,
              sym e,
              refl,
              rw
                  (select-nobody (λ w. w.device_id) s.network_snapshots device_id s.network_wans e
                    (All-weaken _ _ s.network_wans (λ w h. h.1) recorded.0))
                  Permᴰ.nil,
              tt,
              rw
                  (select-nobody (λ n. n.device_id) s.network_snapshots device_id s.network_segments
                    e recorded.1)
                  Permᴰ.nil,
              tt,
            ),
        refl,
      )
      go d present own (some x) e =
          ordered_rows-Ensures db network_wans_table _ _ _ s λ wans all_wans by_route.
            ordered_rows-Ensures db network_segments_table _ _ _ s λ networks all_networks by_name.
              Ensures-pure _ s (
                d,
                present,
                subst
                    (λ k. ShowsKey s k d record {
                      device = d;
                      reported = true;
                      snapshot = some x;
                      wans = wans;
                      networks = networks;
                    })
                    own
                    (
                      refl,
                      sym e,
                      refl,
                      all_wans,
                      by_route wan_less-IsOrder,
                      all_networks,
                      by_name segment_less-IsOrder,
                    ),
                refl,
              )

module _ (s : Database) (one : OnePerDevice (λ x. x.device_id) s.network_snapshots) where
  context_entries-ShowsAll :
      (wans : List NetworkWan) (networks : List NetworkSegment)
      → Permᴰ s.network_wans wans
      → Sorted wan_less wans
      → Permᴰ s.network_segments networks
      → Sorted segment_less networks
      → (ds : List Device)
      → ShowsAll s ds (
          context_entries
            (index_rows (λ x. x.device_id) (λ d. none) s.network_snapshots)
            (group_rows (λ w. w.device_id) (λ d. []) wans)
            (group_rows (λ n. n.device_id) (λ d. []) networks)
            ds)
  unfolding context_entries
  context_entries-ShowsAll wans networks pw sw pn sn [] = tt
  context_entries-ShowsAll wans networks pw sw pn sn (d ∷ ds) = (
    (
      refl,
      index_rows-find (λ x. x.device_id) s.network_snapshots (λ k. none) d.id one ∙ or_else-none _,
      refl,
      rw (group_rows-select (λ w. w.device_id) wans (λ k. []) d.id) (select-Permᴰ (wan_of d.id) pw),
      rw (group_rows-select (λ w. w.device_id) wans (λ k. []) d.id)
          (select-Sorted wan_less (wan_of d.id) wans sw),
      rw (group_rows-select (λ n. n.device_id) networks (λ k. []) d.id)
          (select-Permᴰ (segment_of d.id) pn),
      rw (group_rows-select (λ n. n.device_id) networks (λ k. []) d.id)
          (select-Sorted segment_less (segment_of d.id) networks sn),
    ),
    context_entries-ShowsAll wans networks pw sw pn sn ds,
  )

-- ListContexts gives one view for each device, in the order of the devices' names, leaves the
-- database as it is and refuses nothing, where no two snapshots are of one device. The view is the one
-- that Context is shown to give: the snapshot, if there is one, and all the device's interfaces and
-- networks, in order.
pub list_contexts-Shows :
    (db : Gorm) (s : Database)
    → OnePerDevice (λ x. x.device_id) s.network_snapshots
    → Ensures
        (λ cs s'.
          (ds : List Device) × Permᴰ s.devices ds
          × Sorted device_less ds
          × ShowsAll s ds cs
          × (s' ≡ s))
        (λ r. ⊥)
        (list_contexts db)
        s
unfolding list_contexts
list_contexts-Shows db s one =
    ordered_rows-Ensures db devices_table _ _ _ s λ ds all_devices by_name.
      find_rows-Ensures db network_snapshots_table _ _ s (
        ordered_rows-Ensures db network_wans_table _ _ _ s λ wans all_wans by_route.
          ordered_rows-Ensures db network_segments_table _ _ _ s λ networks all_networks in_order.
            Ensures-pure _ s (
              ds,
              rw (sym (select-every s.devices)) all_devices,
              by_name device_less-IsOrder,
              rw (select-every s.network_snapshots) (
                  context_entries-ShowsAll s one wans networks
                    (subst (λ t. Permᴰ t wans) (select-every s.network_wans) all_wans)
                    (by_route wan_less-IsOrder)
                    (subst (λ t. Permᴰ t networks) (select-every s.network_segments) all_networks)
                    (in_order segment_less-IsOrder) ds),
              refl,
            ))
