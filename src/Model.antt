-- ===== src/Model.antt =====
-- The records of products/hermes/internal/model and the database that database.Open migrates
-- (products/hermes/internal/database/database.go), as one record of tables.
-- Of the embedded `gorm.Model` the fields that the services read are kept: the primary key, and
-- `created_at` where rows are ordered by it. No service deletes softly, so `deleted_at` is unset.
-- A time is a number of nanoseconds; a pointer is an `Option`; a status is an enumeration of the
-- constants of its file. Texts are lists of bytes.
mod Status
mod Credentials
mod Devices
mod Reports
pub use Status.*
pub use Credentials.*
pub use Devices.*
pub use Reports.*
use olimpo.Common.{List}
use olimpo.Gorm.{Table}

pub record Database : Type 0 where
  pub domains : List Domain
  pub devices : List Device
  pub agent_credentials : List DeviceIdentityCredential
  pub enrollments : List AgentEnrollment
  pub telemetry_snapshots : List AgentTelemetrySnapshot
  pub network_snapshots : List NetworkIdentitySnapshot
  pub network_wans : List NetworkWan
  pub network_segments : List NetworkSegment
  pub ddns_credentials : List DdnsCredential
  pub rotations : List DdnsCredentialRotation
  pub hosts : List Host
  pub update_logs : List UpdateLog

-- The tables, as the statements name them.
abbrev pub domains_table : Table Database Domain
domains_table = record {
  rows_of = λ s. s.domains;
  with_rows = λ s t. record s { domains = t };
  id = λ r. r.id;
}

abbrev pub devices_table : Table Database Device
devices_table = record {
  rows_of = λ s. s.devices;
  with_rows = λ s t. record s { devices = t };
  id = λ r. r.id;
}

abbrev pub agent_credentials_table : Table Database DeviceIdentityCredential
agent_credentials_table = record {
  rows_of = λ s. s.agent_credentials;
  with_rows = λ s t. record s { agent_credentials = t };
  id = λ r. r.id;
}

abbrev pub enrollments_table : Table Database AgentEnrollment
enrollments_table = record {
  rows_of = λ s. s.enrollments;
  with_rows = λ s t. record s { enrollments = t };
  id = λ r. r.id;
}

abbrev pub telemetry_snapshots_table : Table Database AgentTelemetrySnapshot
telemetry_snapshots_table = record {
  rows_of = λ s. s.telemetry_snapshots;
  with_rows = λ s t. record s { telemetry_snapshots = t };
  id = λ r. r.id;
}

abbrev pub network_snapshots_table : Table Database NetworkIdentitySnapshot
network_snapshots_table = record {
  rows_of = λ s. s.network_snapshots;
  with_rows = λ s t. record s { network_snapshots = t };
  id = λ r. r.id;
}

abbrev pub network_wans_table : Table Database NetworkWan
network_wans_table = record {
  rows_of = λ s. s.network_wans;
  with_rows = λ s t. record s { network_wans = t };
  id = λ r. r.id;
}

abbrev pub network_segments_table : Table Database NetworkSegment
network_segments_table = record {
  rows_of = λ s. s.network_segments;
  with_rows = λ s t. record s { network_segments = t };
  id = λ r. r.id;
}

abbrev pub ddns_credentials_table : Table Database DdnsCredential
ddns_credentials_table = record {
  rows_of = λ s. s.ddns_credentials;
  with_rows = λ s t. record s { ddns_credentials = t };
  id = λ r. r.id;
}

abbrev pub rotations_table : Table Database DdnsCredentialRotation
rotations_table = record {
  rows_of = λ s. s.rotations;
  with_rows = λ s t. record s { rotations = t };
  id = λ r. r.id;
}

abbrev pub hosts_table : Table Database Host
hosts_table = record {
  rows_of = λ s. s.hosts;
  with_rows = λ s t. record s { hosts = t };
  id = λ r. r.id;
}

abbrev pub update_logs_table : Table Database UpdateLog
update_logs_table = record {
  rows_of = λ s. s.update_logs;
  with_rows = λ s t. record s { update_logs = t };
  id = λ r. r.id;
}
