-- ===== src/Model/Reports.antt =====
-- agent_telemetry.go and network_identity.go.
use olimpo.Common.{ℕ, ℤ, Text, Option, Bool}

-- A `float64`: not a number, an infinity (negative or not), or a number with its sign, of the value
-- mantissa * 2 ^ (exponent - 1074).
pub data Float64 : Type 0 where
  nan : Float64
  infinite : Bool → Float64
  finite : Bool → ℕ → ℕ → Float64

pub record AgentTelemetrySnapshot : Type 0 where
  pub id : ℕ
  pub device_id : ℕ
  pub last_heartbeat_at : ℕ
  pub last_ip : Text
  pub agent_version : Text
  pub system_hostname : Text
  pub platform : Text
  pub architecture : Text
  pub os_version : Text
  pub kernel_version : Text
  pub firmware_version : Text
  pub boot_id : Text
  pub uptime_seconds : ℕ
  pub cpu_count : ℤ
  pub load_1 : Float64
  pub load_5 : Float64
  pub load_15 : Float64
  pub memory_total_bytes : ℕ
  pub memory_available_bytes : ℕ
  pub disk_total_bytes : ℕ
  pub disk_available_bytes : ℕ

-- The AddressScope, NATState and PublicIPSource constants of networkcontext/service.go
pub data AddressScope : Type 0 where
  public private cgnat special unknown : AddressScope

pub data NatState : Type 0 where
  direct double_nat cgnat public_mismatch unknown : NatState

-- `none` is the empty text.
pub data PublicIpSource : Type 0 where
  none agent_probe server_peer : PublicIpSource

pub record NetworkIdentitySnapshot : Type 0 where
  pub id : ℕ
  pub device_id : ℕ
  pub reported_at : ℕ
  pub server_observed_ip : Text

pub record NetworkWan : Type 0 where
  pub id : ℕ
  pub device_id : ℕ
  pub interface_name : Text
  pub role : Text
  pub default_route : Bool
  pub ipv4 : Text
  pub gateway_ipv4 : Text
  pub ipv6 : Text
  pub observed_public_ipv4 : Text
  pub public_ip_source : PublicIpSource
  pub address_scope : AddressScope
  pub nat_state : NatState
  pub upstream_nat : Bool
  pub double_nat : Bool
  pub cgnat : Bool
  pub public_ip_match : Option Bool

pub record NetworkSegment : Type 0 where
  pub id : ℕ
  pub device_id : ℕ
  pub name : Text
  pub vlan_id : Option ℤ
  pub ipv4_cidr : Text
  pub gateway_ipv4 : Text
  pub purpose : Text
