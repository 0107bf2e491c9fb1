-- ===== src/Network/Contexts.antt =====
-- Context and ListContexts of service.go: one device's view, and all devices' with four queries.
use olimpo.Common.{ℕ, Bool, true, false, Option, none, some, List, [], ◌∷◌, ◌==◌, nat_eq}
use olimpo.Errors.{NetworkError, network, refused}
use olimpo.Gorm.{Gorm, Exec, pure, ◌>>=◌, first_or, first?, find_rows, ordered_rows}
use olimpo.Model.{
  Database, Device, NetworkIdentitySnapshot, NetworkWan, NetworkSegment, devices_table,
  network_snapshots_table, network_wans_table, network_segments_table,
}
use olimpo.Grouping.{every, device_less, group_rows, index_rows}
use olimpo.Network.Report.{
  DeviceNetworkContext, wan_of, segment_of, snapshot_of, wan_less, segment_less,
}

abbrev pub is_reported : Option NetworkIdentitySnapshot → Bool
is_reported none = false
is_reported (some x) = true

unfoldable pub context_entries :
    (ℕ → Option NetworkIdentitySnapshot)
    → (ℕ → List NetworkWan)
    → (ℕ → List NetworkSegment)
    → List Device
    → List DeviceNetworkContext
context_entries snapshots wans networks [] = []
context_entries snapshots wans networks (d ∷ ds) =
    record {
      device = d;
      reported = is_reported (snapshots d.id);
      snapshot = snapshots d.id;
      wans = wans d.id;
      networks = networks d.id;
    }
    ∷ context_entries snapshots wans networks ds

module _ (db : Gorm) where
  unfoldable pub context_found :
      ℕ → Device → Option NetworkIdentitySnapshot → Exec Database DeviceNetworkContext
  unfolding wan_less
  context_found device_id device none =
      pure record { device = device; reported = false; snapshot = none; wans = []; networks = [] }
  context_found device_id device (some snapshot) = do
    wans ← ordered_rows db network_wans_table wan_less (wan_of device_id)
    networks ← ordered_rows db network_segments_table segment_less (segment_of device_id)
    pure record {
      device = device;
      reported = true;
      snapshot = some snapshot;
      wans = wans;
      networks = networks;
    }

  -- Context
  unfoldable pub network_context : ℕ → Exec Database DeviceNetworkContext
  unfolding context_found
  network_context device_id = do
    device ←
        first_or db devices_table (refused (network NetworkError.device_not_found))
          (λ d. d.id == device_id)
    snapshot ← first? db network_snapshots_table (snapshot_of device_id)
    context_found device_id device snapshot

  -- ListContexts
  unfoldable pub list_contexts : Exec Database (List DeviceNetworkContext)
  unfolding group_rows index_rows context_entries wan_less
  list_contexts = do
    devices ← ordered_rows db devices_table device_less every
    snapshots ← find_rows db network_snapshots_table every
    wans ← ordered_rows db network_wans_table wan_less every
    networks ← ordered_rows db network_segments_table segment_less every
    pure (
        context_entries (index_rows (λ x. x.device_id) (λ d. none) snapshots)
          (group_rows (λ w. w.device_id) (λ d. []) wans)
          (group_rows (λ n. n.device_id) (λ d. []) networks) devices)
