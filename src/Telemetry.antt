-- ===== src/Telemetry.antt =====
-- products/hermes/internal/telemetry/service.go: heartbeats of the agents and their online state.
pub mod Input
pub mod Snapshots
pub mod Merge
pub mod Report
pub mod Statuses
use olimpo.Common.{
  ℕ, ◌-◌, ◌*◌, ◌/◌, ◌^◌, Bool, true, false, not, ◌&&◌, ◌||◌, Option, none, some, List, [], ltb, leb,
  ◌==◌, nat_eq, Text, if◌then◌else◌, ℤ, pos, ltb_ℤ,
}
use olimpo.Errors.{
  TelemetryError, invalid_memory_metrics, invalid_disk_metrics, invalid_cpu_count, invalid_load,
  invalid_counter, telemetry, refused,
}
use olimpo.Gorm.{
  Gorm, Exec, pure, refuse, ◌>>=◌, ◌>>◌, first_or, first?, update_where, update_row, create_row,
}
use olimpo.Model.{
  Database, Device, Float64, nan, infinite, finite, AgentTelemetrySnapshot, devices_table,
  telemetry_snapshots_table,
}
use olimpo.Text.{trim_space, is_empty}
use olimpo.Credential.Base.{active_device}
use olimpo.Telemetry.Input.{
  online_threshold_seconds, second, AgentState, never_seen, online, offline, HeartbeatInput,
  AgentStatus, validate_input, validate_snapshot,
}

abbrev pub apply_string : Option Text → Text → Text
apply_string none old = old
apply_string (some s) old = trim_space s

abbrev pub apply_value : {A : Type 0} → Option A → A → A
apply_value none old = old
apply_value (some x) old = x

-- applyHeartbeat
unfoldable pub apply_heartbeat : HeartbeatInput → AgentTelemetrySnapshot → AgentTelemetrySnapshot
apply_heartbeat input x = record x {
  agent_version = apply_string input.agent_version x.agent_version;
  system_hostname = apply_string input.system_hostname x.system_hostname;
  platform = apply_string input.platform x.platform;
  architecture = apply_string input.architecture x.architecture;
  os_version = apply_string input.os_version x.os_version;
  kernel_version = apply_string input.kernel_version x.kernel_version;
  firmware_version = apply_string input.firmware_version x.firmware_version;
  boot_id = apply_string input.boot_id x.boot_id;
  uptime_seconds = apply_value input.uptime_seconds x.uptime_seconds;
  cpu_count = apply_value input.cpu_count x.cpu_count;
  load_1 = apply_value input.load_1 x.load_1;
  load_5 = apply_value input.load_5 x.load_5;
  load_15 = apply_value input.load_15 x.load_15;
  memory_total_bytes = apply_value input.memory_total_bytes x.memory_total_bytes;
  memory_available_bytes = apply_value input.memory_available_bytes x.memory_available_bytes;
  disk_total_bytes = apply_value input.disk_total_bytes x.disk_total_bytes;
  disk_available_bytes = apply_value input.disk_available_bytes x.disk_available_bytes;
}

abbrev pub zero_float : Float64
zero_float = finite false 0 0

-- The snapshot of a device that has none yet.
abbrev pub first_snapshot : Device → ℕ → AgentTelemetrySnapshot
first_snapshot device device_id = record {
  id = 0;
  device_id = device_id;
  last_heartbeat_at = 0;
  last_ip = [];
  agent_version = device.agent_version;
  system_hostname = [];
  platform = [];
  architecture = [];
  os_version = [];
  kernel_version = [];
  firmware_version = [];
  boot_id = [];
  uptime_seconds = 0;
  cpu_count = pos 0;
  load_1 = zero_float;
  load_5 = zero_float;
  load_15 = zero_float;
  memory_total_bytes = 0;
  memory_available_bytes = 0;
  disk_total_bytes = 0;
  disk_available_bytes = 0;
}

-- The snapshot before this heartbeat.
abbrev pub base_snapshot : Device → ℕ → Option AgentTelemetrySnapshot → AgentTelemetrySnapshot
base_snapshot device device_id none = first_snapshot device device_id
base_snapshot device device_id (some old) = old

abbrev pub stamp : ℕ → Text → AgentTelemetrySnapshot → AgentTelemetrySnapshot
stamp now ip x = record x { last_heartbeat_at = now; last_ip = trim_space ip }

-- `if version != "" { deviceUpdates["agent_version"] = version }`
abbrev pub note_agent_version : Option Text → Device → Device
note_agent_version none d = d
note_agent_version (some v) d =
    if not (is_empty (trim_space v)) then record d { agent_version = trim_space v } else d

abbrev pub heard_from : HeartbeatInput → ℕ → Text → Device → Device
heard_from input now ip d =
    note_agent_version input.agent_version
      (record d { last_seen_at = some now; last_ip = trim_space ip })

-- `if err := ..; err != nil { return err }`
abbrev pub accept : {A : Type 0} → Option TelemetryError → Exec Database A → Exec Database A
accept none m = m
accept (some e) m = refuse (telemetry e)

-- statusFrom, where the age of a later heartbeat is zero
abbrev pub status_from : Device → ℕ → Option AgentTelemetrySnapshot → AgentStatus
status_from device now none = record {
  device = device;
  state = never_seen;
  is_online = false;
  heartbeat_age_seconds = none;
  snapshot = none;
}
status_from device now (some x) =
    let age = now - x.last_heartbeat_at in
    let fresh = leb age (online_threshold_seconds * second) in
    record {
      device = device;
      state = if fresh then AgentState.online else AgentState.offline;
      is_online = fresh;
      heartbeat_age_seconds = some (age / second);
      snapshot = some x;
    }

module _ (db : Gorm) where
  -- Create, or Save by the primary key.
  unfoldable pub store_snapshot :
      Option AgentTelemetrySnapshot → AgentTelemetrySnapshot → Exec Database AgentTelemetrySnapshot
  store_snapshot none x = create_row db telemetry_snapshots_table (λ id at. record x { id = id })
  store_snapshot (some old) x = do
    update_row db telemetry_snapshots_table old (λ row. record x { id = row.id })
    pure x

  unfoldable pub report_tx : ℕ → Text → HeartbeatInput → ℕ → Exec Database AgentTelemetrySnapshot
  unfolding store_snapshot
  report_tx device_id caller_ip input now = do
    device ←
        first_or db devices_table (refused (telemetry TelemetryError.device_not_found))
          (active_device device_id)
    old ← first? db telemetry_snapshots_table (λ x. x.device_id == device_id)
    let x = apply_heartbeat input (stamp now caller_ip (base_snapshot device device_id old))
    accept (validate_snapshot x) do
      result ← store_snapshot old x
      update_where db devices_table (λ d. d.id == device_id) (heard_from input now caller_ip)
      pure result

  -- Report
  unfoldable pub report : ℕ → Text → HeartbeatInput → ℕ → Exec Database AgentTelemetrySnapshot
  report device_id caller_ip input now =
      accept (validate_input input) (db.transaction (report_tx device_id caller_ip input now))

  -- Status
  unfoldable pub agent_status : ℕ → ℕ → Exec Database AgentStatus
  agent_status device_id now = do
    device ←
        first_or db devices_table (refused (telemetry TelemetryError.device_not_found))
          (λ d. d.id == device_id)
    x ← first? db telemetry_snapshots_table (λ x. x.device_id == device_id)
    pure (status_from device now x)
