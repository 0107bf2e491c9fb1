-- ===== src/Api/AgentRequests.antt =====
-- The request bodies of the agent routes, and what the services are given of them.
use olimpo.Common.{ℕ, Bool, Option, none, List, [], ◌∷◌, Text, ℤ}
use olimpo.Model.{Float64}
use olimpo.Telemetry.Input.{HeartbeatInput}
use olimpo.Network.Wan.{WanInput}
use olimpo.Network.Input.{SegmentInput}

-- agentStageCandidateRequest
pub record StageRequest : Type 0 where
  pub key_id : Text
  pub secret_hash : Text

-- confirmAgentEnrollmentRequest
pub record ConfirmRequest : Type 0 where
  pub agent_version : Text

-- agentHeartbeatRequest
pub record HeartbeatRequest : Type 0 where
  pub agent_version : Option Text
  pub system_hostname : Option Text
  pub platform : Option Text
  pub architecture : Option Text
  pub os_version : Option Text
  pub kernel_version : Option Text
  pub firmware_version : Option Text
  pub boot_id : Option Text
  pub uptime_seconds : Option ℕ
  pub cpu_count : Option ℤ
  pub load_1 : Option Float64
  pub load_5 : Option Float64
  pub load_15 : Option Float64
  pub memory_total_bytes : Option ℕ
  pub memory_available_bytes : Option ℕ
  pub disk_total_bytes : Option ℕ
  pub disk_available_bytes : Option ℕ

-- agentNetworkContextWANRequest
pub record WanRequest : Type 0 where
  pub interface_name : Text
  pub role : Text
  pub default_route : Bool
  pub ipv4 : Text
  pub gateway_ipv4 : Text
  pub ipv6 : Text
  pub public_ipv4 : Text

-- agentNetworkContextSegmentRequest
pub record SegmentRequest : Type 0 where
  pub name : Text
  pub vlan_id : Option ℤ
  pub ipv4_cidr : Text
  pub gateway_ipv4 : Text
  pub purpose : Text

-- agentNetworkContextRequest
pub record NetworkContextRequest : Type 0 where
  pub wans : List WanRequest
  pub networks : List SegmentRequest

-- What the validator says of each request.
pub record AgentValidator : Type 0 where
  pub on_stage : StageRequest → Option Text
  pub on_confirm : ConfirmRequest → Option Text
  pub on_heartbeat : HeartbeatRequest → Option Text
  pub on_network_context : NetworkContextRequest → Option Text

abbrev pub no_confirm : ConfirmRequest
no_confirm = record { agent_version = [] }

abbrev pub no_heartbeat : HeartbeatRequest
no_heartbeat = record {
  agent_version = none;
  system_hostname = none;
  platform = none;
  architecture = none;
  os_version = none;
  kernel_version = none;
  firmware_version = none;
  boot_id = none;
  uptime_seconds = none;
  cpu_count = none;
  load_1 = none;
  load_5 = none;
  load_15 = none;
  memory_total_bytes = none;
  memory_available_bytes = none;
  disk_total_bytes = none;
  disk_available_bytes = none;
}

unfoldable pub heartbeat_input : HeartbeatRequest → HeartbeatInput
heartbeat_input req = record {
  agent_version = req.agent_version;
  system_hostname = req.system_hostname;
  platform = req.platform;
  architecture = req.architecture;
  os_version = req.os_version;
  kernel_version = req.kernel_version;
  firmware_version = req.firmware_version;
  boot_id = req.boot_id;
  uptime_seconds = req.uptime_seconds;
  cpu_count = req.cpu_count;
  load_1 = req.load_1;
  load_5 = req.load_5;
  load_15 = req.load_15;
  memory_total_bytes = req.memory_total_bytes;
  memory_available_bytes = req.memory_available_bytes;
  disk_total_bytes = req.disk_total_bytes;
  disk_available_bytes = req.disk_available_bytes;
}

-- The loop over the interfaces.
unfoldable pub wan_inputs : List WanRequest → List WanInput
wan_inputs [] = []
wan_inputs (wan ∷ wans) =
    record {
      interface_name = wan.interface_name;
      role = wan.role;
      default_route = wan.default_route;
      ipv4 = wan.ipv4;
      gateway_ipv4 = wan.gateway_ipv4;
      ipv6 = wan.ipv6;
      public_ipv4 = wan.public_ipv4;
    }
    ∷ wan_inputs wans

-- The loop over the networks.
unfoldable pub segment_inputs : List SegmentRequest → List SegmentInput
segment_inputs [] = []
segment_inputs (network ∷ networks) =
    record {
      name = network.name;
      vlan_id = network.vlan_id;
      ipv4_cidr = network.ipv4_cidr;
      gateway_ipv4 = network.gateway_ipv4;
      purpose = network.purpose;
    }
    ∷ segment_inputs networks
