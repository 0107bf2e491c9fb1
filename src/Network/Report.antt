-- ===== src/Network/Report.antt =====
-- Report and sortContext of service.go: a report replaces the stored identity of its device.
use olimpo.Common.{
  ℕ, Bool, true, not, ◌&&◌, ◌||◌, Option, none, some, List, [], ◌∷◌, ◌==◌, nat_eq, Text,
  if◌then◌else◌, text_ltb, sort,
}
use olimpo.Errors.{NetworkError, network, refused}
use olimpo.Gorm.{
  Gorm, Exec, Table, pure, refuse, ◌>>=◌, ◌>>◌, first_or, first?, update_row, create_row,
  delete_where,
}
use olimpo.Model.{
  Database, Device, device_status_eq, NetworkIdentitySnapshot, NetworkWan, NetworkSegment,
  devices_table, network_snapshots_table, network_wans_table, network_segments_table,
}
use olimpo.Text.{trim_space}
use olimpo.Credential.Base.{active_device}
use olimpo.Network.Wan.{build_wan}
use olimpo.Network.Input.{SegmentInput, ReportInput, validate_input}

-- DeviceNetworkContext
pub record DeviceNetworkContext : Type 0 where
  pub device : Device
  pub reported : Bool
  pub snapshot : Option NetworkIdentitySnapshot
  pub wans : List NetworkWan
  pub networks : List NetworkSegment

abbrev pub wan_of : ℕ → NetworkWan → Bool
wan_of device_id w = w.device_id == device_id

abbrev pub segment_of : ℕ → NetworkSegment → Bool
segment_of device_id n = n.device_id == device_id

abbrev pub snapshot_of : ℕ → NetworkIdentitySnapshot → Bool
snapshot_of device_id x = x.device_id == device_id

-- The default route first, then by name: also the order "default_route desc, interface_name asc".
unfoldable pub wan_less : NetworkWan → NetworkWan → Bool
wan_less a b =
    if (a.default_route && b.default_route) || (not a.default_route && not b.default_route)
    then text_ltb a.interface_name b.interface_name
    else a.default_route

abbrev pub segment_less : NetworkSegment → NetworkSegment → Bool
segment_less a b = text_ltb a.name b.name

-- sortContext. `sort.Slice` sorts a slice of at most twelve elements by insertion, as here; of a longer
-- one it may leave rows of equal keys in another order.
unfoldable pub sort_context : DeviceNetworkContext → DeviceNetworkContext
unfolding wan_less
sort_context c = record c { wans = sort wan_less c.wans; networks = sort segment_less c.networks }

unfoldable pub build_segment : ℕ → SegmentInput → ℕ → NetworkSegment
build_segment device_id input id = record {
  id = id;
  device_id = device_id;
  name = trim_space input.name;
  vlan_id = input.vlan_id;
  ipv4_cidr = trim_space input.ipv4_cidr;
  gateway_ipv4 = trim_space input.gateway_ipv4;
  purpose = trim_space input.purpose;
}

unfoldable pub build_snapshot : ℕ → Text → ℕ → ℕ → NetworkIdentitySnapshot
build_snapshot device_id observed now id = record {
  id = id;
  device_id = device_id;
  reported_at = now;
  server_observed_ip = observed;
}

-- `return err` of the validation
unfoldable pub unless_error : {A : Type 0} → Option NetworkError → Exec Database A → Exec Database A
unless_error none m = m
unless_error (some e) m = refuse (network e)

module _ (db : Gorm) where
  -- The loop that stores one row for each input.
  unfoldable pub create_each :
      {Row Input : Type 0}
      → Table Database Row
      → (Input → ℕ → Row)
      → List Input
      → Exec Database (List Row)
  create_each t build [] = pure []
  create_each t build (x ∷ xs) = do
    r ← create_row db t (λ id at. build x id)
    rs ← create_each t build xs
    pure (r ∷ rs)

  -- Create, or Save by the primary key.
  unfoldable pub store_identity :
      Option NetworkIdentitySnapshot
      → (ℕ → NetworkIdentitySnapshot)
      → Exec Database NetworkIdentitySnapshot
  store_identity none build = create_row db network_snapshots_table (λ id at. build id)
  store_identity (some old) build = do
    update_row db network_snapshots_table old (λ row. build row.id)
    pure (build old.id)

  unfoldable pub report_network_tx : ℕ → Text → ReportInput → ℕ → Exec Database DeviceNetworkContext
  unfolding create_each store_identity build_wan build_segment build_snapshot
  report_network_tx device_id observed input now = do
    device ←
        first_or db devices_table (refused (network NetworkError.device_not_found))
          (active_device device_id)
    old ← first? db network_snapshots_table (snapshot_of device_id)
    snapshot ← store_identity old (build_snapshot device_id observed now)
    delete_where db network_wans_table (wan_of device_id)
    delete_where db network_segments_table (segment_of device_id)
    wans ← create_each network_wans_table (build_wan device_id observed) input.wans
    networks ← create_each network_segments_table (build_segment device_id) input.networks
    pure record {
      device = device;
      reported = true;
      snapshot = some snapshot;
      wans = wans;
      networks = networks;
    }

  -- Report
  unfoldable pub report_network :
      (Text → Bool) → ℕ → Text → ReportInput → ℕ → Exec Database DeviceNetworkContext
  unfolding report_network_tx validate_input sort_context unless_error
  report_network is_ipv6 device_id server_observed_ip input now =
      unless_error (validate_input is_ipv6 input) do
        result ←
            db.transaction (report_network_tx device_id (trim_space server_observed_ip) input now)
        pure (sort_context result)
