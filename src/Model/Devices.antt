-- ===== src/Model/Devices.antt =====
-- device.go, domain.go, host.go and update_log.go.
use olimpo.Common.{ℕ, ℤ, Text, Option, Bool}
use olimpo.Model.Status.{DeviceStatus}

pub record Device : Type 0 where
  pub id : ℕ
  pub name : Text
  pub display_name : Text
  pub kind : Text
  pub status : DeviceStatus
  pub last_seen_at : Option ℕ
  pub last_ip : Text
  pub agent_version : Text

pub record Domain : Type 0 where
  pub id : ℕ
  pub name : Text
  pub default_ttl : ℤ
  pub enabled : Bool
  pub wildcard : Bool

-- The preloaded `Domain` and `Device` of a host are not columns, and are left out.
pub record Host : Type 0 where
  pub id : ℕ
  pub domain_id : ℕ
  pub device_id : ℕ
  pub hostname : Text
  pub ip_address : Text
  pub record_type : Text
  pub ttl : ℤ
  pub status : DeviceStatus
  pub last_update : ℕ

pub record UpdateLog : Type 0 where
  pub id : ℕ
  pub device_id : ℕ
  pub host_id : Option ℕ
  pub credential_id : Option ℕ
  pub operation : Text
  pub status : Text
  pub response_code : Text
  pub message : Text
  pub sent_ip : Text
  pub caller_ip : Text
  pub user_agent : Text
  pub requested_at : ℕ
  pub completed_at : ℕ
