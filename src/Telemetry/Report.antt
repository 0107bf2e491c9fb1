-- ===== src/Telemetry/Report.antt =====
-- Report, from tables whose snapshots are valid, one for each device.
use mathlib.Core.Option.{some-injective, none-ne-some}
use olimpo.Common.{
  ℕ, ◌≡◌, refl, sym, ◌∙◌, ap, subst, ◌⊎◌, inl, inr, Option, none, some, Text, ◌==◌, nat_eq,
  nat_beq_iff, find, update_rows, find_holds, find-by_id,
}
use olimpo.Errors.{TelemetryError, telemetry, Refusal}
use olimpo.Gorm.{Gorm, Exec}
use olimpo.Gorm.Rules.{
  Ensures, Atomic, Ensures-pure, Ensures-refuse, Ensures-bind, Atomic-refuse, transaction-Atomic,
}
use olimpo.Gorm.Statements.{
  first_or-Ensures, first?-Ensures, update_where-Ensures, create_row-Ensures_last,
}
use olimpo.Gorm.Outcomes.{Atomic-weaken, Atomic-refusals}
use olimpo.Model.{
  Database, Device, AgentTelemetrySnapshot, devices_table, telemetry_snapshots_table,
}
use olimpo.Credential.Base.{active_device}
use olimpo.Telemetry.Merge.{
  IsBase, IsMerge, SeesDevice, base_snapshot-IsBase, apply_heartbeat-IsMerge, heard_from-SeesDevice,
}
use olimpo.Telemetry.{
  base_snapshot, stamp, apply_heartbeat, heard_from, accept, store_snapshot, report_tx, report,
}
use olimpo.Telemetry.Input.{HeartbeatInput, validate_input, validate_snapshot}
use olimpo.Telemetry.Snapshots.{
  snapshot_at, snapshot_of, ValidSnapshots, merged, snapshot_new, append-ValidSnapshots, saved,
  saved_at, save-ValidSnapshots,
}

abbrev Stored : Database → AgentTelemetrySnapshot → AgentTelemetrySnapshot → Database → Type 0
Stored s x r s' =
    ValidSnapshots s'.telemetry_snapshots
    × (snapshot_at r.id s'.telemetry_snapshots ≡ some r)
    × (r ≡ record x { id = r.id })
    × (s'.devices ≡ s.devices)

-- The heartbeat of an active device is merged into its snapshot, or into a first one, the result is
-- stored and valid, and the device is marked as heard from.
abbrev MergeStored :
    Database → ℕ → Text → HeartbeatInput → ℕ → AgentTelemetrySnapshot → Database → Type 0
MergeStored s d ip input now r s' =
    ValidSnapshots s'.telemetry_snapshots
    × (snapshot_at r.id s'.telemetry_snapshots ≡ some r)
    × ((device : Device) × (find (active_device d) s.devices ≡ some device)
        × (r ≡ record (merged device d ip input now (find (snapshot_of d) s.telemetry_snapshots)) {
          id = r.id;
        }))
    × (s'.devices ≡ update_rows (λ x. x.id == d) (heard_from input now ip) s.devices)

abbrev MergeRefused : Database → ℕ → Text → HeartbeatInput → ℕ → Refusal → Type 0
MergeRefused s d ip input now e =
    ((f : TelemetryError) × (e ≡ telemetry f) × (validate_input input ≡ some f))
    ⊎ ((e ≡ telemetry TelemetryError.device_not_found) × (find (active_device d) s.devices ≡ none))
    ⊎ ((device : Device) × (f : TelemetryError) × (e ≡ telemetry f)
        × (find (active_device d) s.devices ≡ some device)
        × (validate_snapshot
              (merged device d ip input now (find (snapshot_of d) s.telemetry_snapshots))
            ≡ some f))

-- The heartbeat is a valid one of an active device. The snapshot is what the heartbeat makes of the
-- one that the device had, or of a blank one; it is stored, and valid like all others; the device was
-- seen, and no other one is touched.
abbrev pub Reported :
    Database → ℕ → Text → HeartbeatInput → ℕ → AgentTelemetrySnapshot → Database → Type 0
Reported s d ip input now r s' =
    (validate_input input ≡ none)
    × ValidSnapshots s'.telemetry_snapshots
    × (snapshot_at r.id s'.telemetry_snapshots ≡ some r)
    × (r.device_id ≡ d)
    × ((device : Device) × (before : AgentTelemetrySnapshot) × (find (active_device d) s.devices
          ≡ some device)
        × IsBase device (find (snapshot_of d) s.telemetry_snapshots) before
        × IsMerge input now ip before r)
    × SeesDevice input now ip d s.devices s'.devices

-- Why a report is refused: the input is, there is no such active device, or the merged snapshot is.
abbrev pub NotReported : Database → ℕ → Text → HeartbeatInput → ℕ → Refusal → Type 0
NotReported s d ip input now e =
    ((f : TelemetryError) × (e ≡ telemetry f) × (validate_input input ≡ some f))
    ⊎ ((e ≡ telemetry TelemetryError.device_not_found) × (find (active_device d) s.devices ≡ none))
    ⊎ ((device : Device) × (before : AgentTelemetrySnapshot) × (after : AgentTelemetrySnapshot)
        × (f : TelemetryError) × (e ≡ telemetry f)
        × (find (active_device d) s.devices ≡ some device)
        × IsBase device (find (snapshot_of d) s.telemetry_snapshots) before
        × IsMerge input now ip before after
        × (validate_snapshot after ≡ some f))

any_key :
    (x : AgentTelemetrySnapshot)
    → validate_snapshot x ≡ none
    → (n : ℕ) → validate_snapshot (record x { id = n }) ≡ none
unfolding validate_snapshot
any_key x h n = h

key_free :
    (x : AgentTelemetrySnapshot) (n : ℕ)
    → validate_snapshot (record x { id = n }) ≡ validate_snapshot x
unfolding validate_snapshot
key_free x n = refl

pub merged-device_id :
    (device : Device) (d : ℕ) (ip : Text) (input : HeartbeatInput) (now : ℕ)
    (old : Option AgentTelemetrySnapshot)
    → ((x : AgentTelemetrySnapshot) → old ≡ some x → x.device_id ≡ d)
    → (merged device d ip input now old).device_id ≡ d
unfolding apply_heartbeat
merged-device_id device d ip input now none h = refl
merged-device_id device d ip input now (some x) h = h x refl

merged-id :
    (device : Device) (d : ℕ) (ip : Text) (input : HeartbeatInput) (now : ℕ)
    (x : AgentTelemetrySnapshot)
    → (merged device d ip input now (some x)).id ≡ x.id
unfolding apply_heartbeat
merged-id device d ip input now x = refl

module _ (db : Gorm) (s : Database) (v : ValidSnapshots s.telemetry_snapshots) (d : ℕ) (ip : Text)
    (input : HeartbeatInput) (now : ℕ) where
  owner :
      (x : AgentTelemetrySnapshot)
      → find (snapshot_of d) s.telemetry_snapshots ≡ some x
      → x.device_id ≡ d
  owner x h = (nat_beq_iff x.device_id d).0 (find_holds (snapshot_of d) s.telemetry_snapshots x h)

  store_snapshot-Ensures :
      (device : Device) (o : Option AgentTelemetrySnapshot)
      → find (snapshot_of d) s.telemetry_snapshots ≡ o
      → validate_snapshot (merged device d ip input now o) ≡ none
      → Ensures
          (Stored s (merged device d ip input now o))
          (MergeRefused s d ip input now)
          (store_snapshot db o (merged device d ip input now o))
          s
  unfolding store_snapshot
  store_snapshot-Ensures device none h fine =
      let x = merged device d ip input now none in
      let own : x.device_id ≡ d =
        merged-device_id device d ip input now none (λ y e. absurd (none-ne-some y e)) in
      let alone : find (snapshot_of x.device_id) s.telemetry_snapshots ≡ none =
        subst (λ k. find (snapshot_of k) s.telemetry_snapshots ≡ none) (sym own) h in
      create_row-Ensures_last db telemetry_snapshots_table _ s λ n at _ above. (
        append-ValidSnapshots s.telemetry_snapshots v (record x { id = n }) above (any_key x fine n)
            alone,
        snapshot_new s.telemetry_snapshots v (record x { id = n }) above (any_key x fine n) alone,
        refl,
        refl,
      )
  store_snapshot-Ensures device (some old) h fine =
      let x = merged device d ip input now (some old) in
      let at = find-by_id (λ z. z.id) _ s.telemetry_snapshots old v.ascending h in
      let key : x.id ≡ old.id = merged-id device d ip input now old in
      let own : x.device_id ≡ old.device_id =
        merged-device_id device d ip input now (some old) (λ y e.
          ap (λ (z : AgentTelemetrySnapshot). z.device_id) (some-injective y old (sym e))
          ∙ owner old h)
        ∙ sym (owner old h) in
      update_where-Ensures db telemetry_snapshots_table _ _ _ s (
        Ensures-pure x _ (
          save-ValidSnapshots s.telemetry_snapshots v old x at key own (any_key x fine),
          subst
              (λ n.
                snapshot_at n (saved s.telemetry_snapshots v old x at key own (any_key x fine))
                ≡ some (record x { id = n }))
              (sym key) (saved_at s.telemetry_snapshots v old x at key own (any_key x fine)),
          refl,
          refl,
        ))

  accepted-Ensures :
      (device : Device) (o : Option TelemetryError)
      → find (active_device d) s.devices ≡ some device
      → validate_snapshot
          (merged device d ip input now (find (snapshot_of d) s.telemetry_snapshots))
        ≡ o
      → (m : Exec Database AgentTelemetrySnapshot)
      → (o ≡ none → Ensures (MergeStored s d ip input now) (MergeRefused s d ip input now) m s)
      → Ensures (MergeStored s d ip input now) (MergeRefused s d ip input now) (accept o m) s
  accepted-Ensures device none present h m k = k refl
  accepted-Ensures device (some f) present h m k =
      Ensures-refuse _ s (inr (inr (device, f, refl, present, h)))

  report_tx-Ensures :
      Ensures
        (MergeStored s d ip input now)
        (MergeRefused s d ip input now)
        (report_tx db d ip input now)
        s
  unfolding report_tx
  report_tx-Ensures =
      first_or-Ensures db devices_table _ _ _ s (λ h. inr (inl (refl, h)))
        λ device present. first?-Ensures db telemetry_snapshots_table _ _ s (
          accepted-Ensures device _ present refl _ λ fine.
            Ensures-bind _ _ _ s (store_snapshot-Ensures device _ refl fine) λ r t h.
              let (sound, at, own, devices) = h in
              update_where-Ensures db devices_table _ _ _ t (
                Ensures-pure r _ (
                  sound,
                  at,
                  (device, present, own),
                  ap (update_rows (λ x. x.id == d) (heard_from input now ip)) devices,
                )))

  stored-Reported :
      (r : AgentTelemetrySnapshot) (s' : Database)
      → validate_input input ≡ none
      → MergeStored s d ip input now r s'
      → Reported s d ip input now r s'
  stored-Reported r s' fine (sound, at, (device, present, own), devices) =
      let old = find (snapshot_of d) s.telemetry_snapshots in
      (
        fine,
        sound,
        at,
        ap (λ (x : AgentTelemetrySnapshot). x.device_id) own
            ∙ merged-device_id device d ip input now old owner,
        (
          device,
          base_snapshot device d old,
          present,
          base_snapshot-IsBase device d old,
          subst (IsMerge input now ip (base_snapshot device d old)) (sym own)
              (apply_heartbeat-IsMerge input now ip (base_snapshot device d old) r.id),
        ),
        subst (SeesDevice input now ip d s.devices) (sym devices)
            (heard_from-SeesDevice input now ip d s.devices),
      )

  refused-NotReported :
      (e : Refusal) → MergeRefused s d ip input now e → NotReported s d ip input now e
  refused-NotReported e (inl h) = inl h
  refused-NotReported e (inr (inl h)) = inr (inl h)
  refused-NotReported e (inr (inr (device, f, same, present, bad))) =
      let before = base_snapshot device d (find (snapshot_of d) s.telemetry_snapshots) in
      inr (
        inr (
          device,
          before,
          record (apply_heartbeat input (stamp now ip before)) { id = 0 },
          f,
          same,
          present,
          base_snapshot-IsBase device d _,
          apply_heartbeat-IsMerge input now ip before 0,
          key_free _ 0 ∙ bad,
        ))

  report_input :
      (o : Option TelemetryError)
      → validate_input input ≡ o
      → Atomic
          (Reported s d ip input now)
          (NotReported s d ip input now)
          (accept o (db.transaction (report_tx db d ip input now)))
          s
  report_input none h =
      Atomic-weaken _ s (λ r s' k. stored-Reported r s' h k)
        (Atomic-refusals _ s refused-NotReported (transaction-Atomic db _ s report_tx-Ensures))
  report_input (some f) h = Atomic-refuse _ s (inl (f, refl, h))

  -- From a table of valid snapshots, one for each device, a report that succeeds is a valid one of an
  -- active device. It stores the values of the heartbeat, each given one in place of the one that the
  -- device's snapshot had, or of a blank one, with the time and the address; it marks the device as
  -- seen then and there, leaves the other devices as they are, and keeps every stored snapshot valid
  -- and the only one of its device. A refusal is that of the input, of the merged snapshot, or says
  -- that the device is not an active one. Whatever fails, the database is as before.
  pub report_Sound :
      Atomic (Reported s d ip input now) (NotReported s d ip input now) (report db d ip input now) s
  unfolding report
  report_Sound = report_input _ refl
