-- ===== src/Telemetry/Statuses.antt =====
-- ListStatuses of service.go: the states of all devices, and Status, which gives one.
use mathlib.Core.List.{Permᴰ}
use olimpo.Common.{
  ℕ, suc, ◌≡◌, ◌∙◌, refl, sym, ap, subst, Option, none, some, List, [], ◌∷◌, ◌==◌, nat_eq,
  nat_beq_iff, find, find_holds, Sorted,
}
use olimpo.Errors.{TelemetryError, telemetry}
use olimpo.Gorm.{Gorm, Exec, pure, ◌>>=◌, find_rows, ordered_rows}
use olimpo.Gorm.Rules.{Ensures, Ensures-pure}
use olimpo.Gorm.Statements.{
  first_or-Ensures, first?-Ensures, ordered_rows-Ensures, find_rows-Ensures,
}
use olimpo.Model.{
  Database, Device, AgentTelemetrySnapshot, devices_table, telemetry_snapshots_table,
}
use olimpo.Grouping.{
  every, device_less, index_rows, OnePerDevice, select-every, index_rows-find, or_else-none,
  device_less-IsOrder,
}
use olimpo.Telemetry.{status_from, agent_status}
use olimpo.Telemetry.Input.{AgentStatus}

-- The loop over the devices; the clock is read once for each, at the time of its place in the list.
unfoldable pub statuses_of :
    (ℕ → Option AgentTelemetrySnapshot) → (ℕ → ℕ) → ℕ → List Device → List AgentStatus
statuses_of by_device clock place [] = []
statuses_of by_device clock place (d ∷ ds) =
    status_from d (clock place) (by_device d.id) ∷ statuses_of by_device clock (suc place) ds

-- ListStatuses
unfoldable pub list_statuses : Gorm → (ℕ → ℕ) → Exec Database (List AgentStatus)
unfolding statuses_of index_rows
list_statuses db clock = do
  devices ← ordered_rows db devices_table device_less every
  snapshots ← find_rows db telemetry_snapshots_table every
  pure (statuses_of (index_rows (λ x. x.device_id) (λ d. none) snapshots) clock 0 devices)

-- The state of a device at a time, from its one snapshot.
abbrev pub Reports : Database → ℕ → Device → AgentStatus → Type 0
Reports s now d status =
    status ≡ status_from d now (find (λ x. x.device_id == d.id) s.telemetry_snapshots)

abbrev pub ReportsAll : Database → (ℕ → ℕ) → ℕ → List Device → List AgentStatus → Type 0
ReportsAll s clock place [] [] = Unit
ReportsAll s clock place [] (x ∷ xs) = ⊥
ReportsAll s clock place (d ∷ ds) [] = ⊥
ReportsAll s clock place (d ∷ ds) (x ∷ xs) =
    Reports s (clock place) d x × ReportsAll s clock (suc place) ds xs

statuses_of-ReportsAll :
    (s : Database) (clock : ℕ → ℕ)
    → OnePerDevice (λ x. x.device_id) s.telemetry_snapshots
    → (ds : List Device) (place : ℕ)
    → ReportsAll s clock place ds (
        statuses_of
          (index_rows (λ x. x.device_id) (λ d. none) s.telemetry_snapshots)
          clock
          place
          ds)
unfolding statuses_of
statuses_of-ReportsAll s clock one [] place = tt
statuses_of-ReportsAll s clock one (d ∷ ds) place = (
  ap (status_from d (clock place)) (
      index_rows-find (λ x. x.device_id) s.telemetry_snapshots (λ k. none) d.id one
      ∙ or_else-none _),
  statuses_of-ReportsAll s clock one ds (suc place),
)

-- Where no two snapshots are of one device, ListStatuses gives for each device, in the order of the
-- names, the state that Status gives of it at the same time; both leave the database as it is, and
-- Status refuses only where there is no such device.
pub list_statuses-ReportsAll :
    (db : Gorm) (s : Database) (clock : ℕ → ℕ) (device_id now : ℕ)
    → OnePerDevice (λ x. x.device_id) s.telemetry_snapshots
    → Ensures
        (λ xs s'.
          (ds : List Device) × Permᴰ s.devices ds
          × Sorted device_less ds
          × ReportsAll s clock 0 ds xs
          × (s' ≡ s))
        (λ r. ⊥)
        (list_statuses db clock)
        s
      × Ensures
          (λ x s'.
            (d : Device) × (find (λ y. y.id == device_id) s.devices ≡ some d)
            × Reports s now d x
            × (s' ≡ s))
          (λ r.
            (r ≡ telemetry TelemetryError.device_not_found)
            × (find (λ y. y.id == device_id) s.devices ≡ none))
          (agent_status db device_id now)
          s
unfolding list_statuses agent_status
list_statuses-ReportsAll db s clock device_id now one = (
  ordered_rows-Ensures db devices_table _ _ _ s λ ds all_devices by_name.
      find_rows-Ensures db telemetry_snapshots_table _ _ s (
        Ensures-pure _ s (
          ds,
          subst (λ t. Permᴰ t ds) (select-every s.devices) all_devices,
          by_name device_less-IsOrder,
          subst
              (λ t.
                ReportsAll s clock 0 ds
                  (statuses_of (index_rows (λ x. x.device_id) (λ d. none) t) clock 0 ds))
              (sym (select-every s.telemetry_snapshots)) (statuses_of-ReportsAll s clock one ds 0),
          refl,
        )),
  first_or-Ensures db devices_table _ _ _ s (λ absent. (refl, absent))
      λ d present. first?-Ensures db telemetry_snapshots_table _ _ s (
        Ensures-pure _ s (
          d,
          present,
          ap (λ k. status_from d now (find (λ x. x.device_id == k) s.telemetry_snapshots))
              (sym ((nat_beq_iff d.id device_id).0 (find_holds _ s.devices d present))),
          refl,
        )),
)
