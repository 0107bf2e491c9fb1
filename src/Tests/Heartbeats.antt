-- ===== src/Tests/Heartbeats.antt =====
-- A heartbeat at concrete values.
use mathlib.Core.Option.{none-ne-some}
use mathlib.Core.List.{Permᴰ}
use olimpo.Common.{some, none, [], find, pos, List, ◌≡◌, ◌==◌, nat_eq, Sorted}
use olimpo.Errors.{TelemetryError, telemetry}
use olimpo.Model.{Device}
use olimpo.Grouping.{device_less}
use olimpo.Gorm.Memory.{memory}
use olimpo.Gorm.Rules.{Atomic, Ensures}
use olimpo.Text.{text}
use olimpo.Telemetry.{report, agent_status}
use olimpo.Telemetry.Input.{HeartbeatInput}
use olimpo.Telemetry.Statuses.{list_statuses, Reports, ReportsAll, list_statuses-ReportsAll}
use olimpo.Telemetry.Report.{Reported, NotReported, report_Sound}
use olimpo.Telemetry.Snapshots.{ValidSnapshots}
use olimpo.Tests.Sample.{sample}

abbrev heartbeat : HeartbeatInput
heartbeat = record {
  agent_version = some (text " 26.08 ");
  system_hostname = some (text "udm");
  platform = none;
  architecture = none;
  os_version = none;
  kernel_version = none;
  firmware_version = none;
  boot_id = none;
  uptime_seconds = some 1000;
  cpu_count = some (pos 4);
  load_1 = none;
  load_5 = none;
  load_15 = none;
  memory_total_bytes = some 4096;
  memory_available_bytes = some 1024;
  disk_total_bytes = none;
  disk_available_bytes = none;
}

no_snapshots : ValidSnapshots []
unfolding find
no_snapshots = record {
  ascending = tt;
  valid = λ i x h. absurd (none-ne-some x h);
  one_each = λ i j x y h. absurd (none-ne-some x h);
}

report_Sound_example :
    Atomic
      (Reported sample 7 (text "192.0.2.1") heartbeat 100)
      (NotReported sample 7 (text "192.0.2.1") heartbeat 100)
      (report memory 7 (text "192.0.2.1") heartbeat 100)
      sample
report_Sound_example = report_Sound memory sample no_snapshots 7 (text "192.0.2.1") heartbeat 100

list_statuses-ReportsAll_example :
    Ensures
      (λ xs s'.
        (ds : List Device) × Permᴰ sample.devices ds
        × Sorted device_less ds
        × ReportsAll sample (λ k. 100) 0 ds xs
        × (s' ≡ sample))
      (λ r. ⊥)
      (list_statuses memory (λ k. 100))
      sample
    × Ensures
        (λ x s'.
          (d : Device) × (find (λ y. y.id == 7) sample.devices ≡ some d)
          × Reports sample 100 d x
          × (s' ≡ sample))
        (λ r.
          (r ≡ telemetry TelemetryError.device_not_found)
          × (find (λ y. y.id == 7) sample.devices ≡ none))
        (agent_status memory 7 100)
        sample
list_statuses-ReportsAll_example = list_statuses-ReportsAll memory sample (λ k. 100) 7 100 tt
