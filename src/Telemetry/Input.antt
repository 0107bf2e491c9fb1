-- ===== src/Telemetry/Input.antt =====
-- Heartbeats, the states of an agent, and what validateInput and validateSnapshot refuse.
use olimpo.Common.{
  ℕ, ◌*◌, ◌^◌, Bool, true, false, not, ◌&&◌, ◌||◌, Option, none, some, ltb, ◌==◌, nat_eq, Text,
  if◌then◌else◌, ℤ, pos, ltb_ℤ,
}
use olimpo.Errors.{
  TelemetryError, invalid_memory_metrics, invalid_disk_metrics, invalid_cpu_count, invalid_load,
  invalid_counter,
}
use olimpo.Model.{Device, Float64, nan, infinite, finite, AgentTelemetrySnapshot}

-- DefaultOnlineThresholdSeconds, and time.Second
abbrev pub online_threshold_seconds : ℕ
online_threshold_seconds = 180

abbrev pub second : ℕ
second = 1000000000

pub data AgentState : Type 0 where
  never_seen online offline : AgentState

pub record HeartbeatInput : Type 0 where
  pub agent_version : Option Text
  pub system_hostname : Option Text
  pub platform : Option Text
  pub architecture : Option Text
  pub os_version : Option Text
  pub kernel_version : Option Text
  pub firmware_version : Option Text
  pub boot_id : Option Text
  pub uptime_seconds : Option ℕ
  pub cpu_count : Option ℤ
  pub load_1 : Option Float64
  pub load_5 : Option Float64
  pub load_15 : Option Float64
  pub memory_total_bytes : Option ℕ
  pub memory_available_bytes : Option ℕ
  pub disk_total_bytes : Option ℕ
  pub disk_available_bytes : Option ℕ

pub record AgentStatus : Type 0 where
  pub device : Device
  pub state : AgentState
  pub is_online : Bool
  pub heartbeat_age_seconds : Option ℕ
  pub snapshot : Option AgentTelemetrySnapshot

-- `x < 0`
abbrev pub is_negative : Float64 → Bool
is_negative nan = false
is_negative (infinite negative) = negative
is_negative (finite negative mantissa exponent) = negative && not (mantissa == 0)

-- `x > 1000000`
abbrev pub is_above_limit : Float64 → Bool
is_above_limit nan = false
is_above_limit (infinite negative) = not negative
is_above_limit (finite negative mantissa exponent) =
    not negative && ltb (1000000 * 2 ^ 1074) (mantissa * 2 ^ exponent)

-- math.IsNaN, or math.IsInf with the sign 0
abbrev pub is_special : Float64 → Bool
is_special nan = true
is_special (infinite negative) = true
is_special (finite negative mantissa exponent) = false

abbrev pub bad_cpu_count : Option ℤ → Bool
bad_cpu_count none = false
bad_cpu_count (some n) = ltb_ℤ n (pos 1) || ltb_ℤ (pos 4096) n

abbrev pub bad_load : Option Float64 → Bool
bad_load none = false
bad_load (some x) = is_special x || is_negative x || is_above_limit x

-- math.MaxInt64
abbrev pub bad_counter : Option ℕ → Bool
bad_counter none = false
bad_counter (some n) = ltb 9223372036854775807 n

-- validateInput: `none` where the input is accepted
unfoldable pub validate_input : HeartbeatInput → Option TelemetryError
validate_input input =
    if bad_cpu_count input.cpu_count
    then some invalid_cpu_count
    else if bad_load input.load_1 || bad_load input.load_5 || bad_load input.load_15
    then some invalid_load
    else if bad_counter input.uptime_seconds
        || bad_counter input.memory_total_bytes
        || bad_counter input.memory_available_bytes
        || bad_counter input.disk_total_bytes
        || bad_counter input.disk_available_bytes
    then some invalid_counter
    else none

-- validateSnapshot
unfoldable pub validate_snapshot : AgentTelemetrySnapshot → Option TelemetryError
validate_snapshot x =
    if ltb_ℤ x.cpu_count (pos 0) || ltb_ℤ (pos 4096) x.cpu_count
    then some invalid_cpu_count
    else if is_negative x.load_1
        || is_negative x.load_5
        || is_negative x.load_15
        || is_above_limit x.load_1
        || is_above_limit x.load_5
        || is_above_limit x.load_15
    then some invalid_load
    else if ltb 0 x.memory_total_bytes && ltb x.memory_total_bytes x.memory_available_bytes
    then some invalid_memory_metrics
    else if ltb 0 x.disk_total_bytes && ltb x.disk_total_bytes x.disk_available_bytes
    then some invalid_disk_metrics
    else none
