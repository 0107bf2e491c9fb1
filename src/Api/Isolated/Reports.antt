-- ===== src/Api/Isolated/Reports.antt =====
-- The heartbeats, the network reports, the confirmations and the authentication of an agent touch its
-- device's rows alone.
use mathlib.Core.Option.{some-injective}
use olimpo.Common.{
  ℕ, ◌≡◌, refl, sym, ap, ◌∙◌, inl, inr, not, Option, none, some, [], ◌∷◌, Text, arith, ◌==◌, nat_eq,
  nat_beq_iff, find, find_holds, update_rows, find_unique, foreign-update_row, foreign-update_keyed,
  foreign-update_where, foreign-append, Bool-cases,
}
use olimpo.Errors.{TelemetryError}
use olimpo.Gorm.{Gorm, Exec, In}
use olimpo.Gorm.Rules.{
  Ensures, Ensures-pure, Ensures-bind, Ensures-refuse, Atomic, Atomic-refuse, transaction-Atomic,
}
use olimpo.Gorm.Statements.{
  first_or-Ensures, first?-Ensures, latest_or-Ensures, update_where-Ensures,
  create_row-Ensures_last,
}
use olimpo.Model.{
  Database, Device, AgentEnrollment, AgentTelemetrySnapshot, EnrollmentStatus, enrollment_status_eq,
  devices_table, enrollments_table, telemetry_snapshots_table,
}
use olimpo.Enrollment.{
  complete_issued, confirm_enrollment, confirm_enrollment_tx, enrollment_where, complete,
  see_device,
}
use olimpo.Telemetry.{heard_from, accept, store_snapshot, report, report_tx}
use olimpo.Telemetry.Input.{HeartbeatInput, validate_input}
use olimpo.Telemetry.Report.{merged-device_id}
use olimpo.Telemetry.Snapshots.{merged}
use olimpo.Api.Isolated.{
  HasKeys, Isolated, Isolated-refl, Isolated-trans, Atomic-Isolated, Stays, Any, refused-Stays,
  In-unique,
}

module _ (d : ℕ) (s : Database) (keys : HasKeys s) where
  -- The device itself is noted.
  device_noted :
      (f : Device → Device) (t : Database)
      → ((x : Device) → (f x).id ≡ x.id)
      → Isolated d s t
      → Isolated d s (record t { devices = update_rows (λ x. x.id == d) f t.devices })
  device_noted f t k h =
      let rest =
        foreign-update_where (λ x. x.id) (λ x. x.id) d (λ x. x.id == d) f t.devices
          (λ x e. (nat_beq_iff x.id d).0 e) k in
      Isolated-trans d s t _ h (ground arith)

  heard_from-id :
      (input : HeartbeatInput) (now : ℕ) (ip : Text) (x : Device)
      → (heard_from input now ip x).id ≡ x.id
  heard_from-id input now ip x = ground arith

  module _ (db : Gorm) where
    accept-Stays :
        {A : Type 0} (o : Option TelemetryError) (m : Exec Database A)
        → Ensures (Stays d s) Any m s
        → Ensures (Stays d s) Any (accept o m) s
    accept-Stays none m h = h
    accept-Stays (some e) m h = Ensures-refuse _ s tt

    store_snapshot-Stays :
        (device : Device) (ip : Text) (input : HeartbeatInput) (now : ℕ)
        (o : Option AgentTelemetrySnapshot)
        → find (λ x. x.device_id == d) s.telemetry_snapshots ≡ o
        → Ensures (Stays d s) Any (store_snapshot db o (merged device d ip input now o)) s
    unfolding store_snapshot
    store_snapshot-Stays device ip input now none h =
        create_row-Ensures_last db telemetry_snapshots_table _ s λ n at _ _.
          let own = merged-device_id device d ip input now none (λ x e. absurd (cc)) in
          let rest =
            foreign-append (λ x. x.device_id) d s.telemetry_snapshots
              (record (merged device d ip input now none) { id = n } ∷ []) (own, tt) in
          ground arith
    store_snapshot-Stays device ip input now (some old) h =
        let own : old.device_id ≡ d =
          (nat_beq_iff old.device_id d).0 (find_holds _ s.telemetry_snapshots old h) in
        let stored = merged-device_id device d ip input now (some old) (λ x e.
          ap (λ (z : AgentTelemetrySnapshot). z.device_id) (some-injective x old (sym e)) ∙ own) in
        let rest =
          foreign-update_row (λ x. x.id) (λ x. x.device_id) d
            (λ row. record (merged device d ip input now (some old)) { id = row.id })
            s.telemetry_snapshots old
            (find_unique (λ x. x.id) _ s.telemetry_snapshots old keys.telemetry h) own stored in
        update_where-Ensures db telemetry_snapshots_table _ _ _ s (Ensures-pure _ _ (ground arith))

    report_tx-Stays :
        (ip : Text) (input : HeartbeatInput) (now : ℕ)
        → Ensures (Stays d s) Any (report_tx db d ip input now) s
    unfolding report_tx
    report_tx-Stays ip input now =
        first_or-Ensures db devices_table _ _ _ s (λ _. tt)
          λ device _. first?-Ensures db telemetry_snapshots_table _ _ s (
            accept-Stays _ _ (
              Ensures-bind (Stays d s) _ _ s (store_snapshot-Stays device ip input now _ refl)
                λ x t h. update_where-Ensures db devices_table _ _ _ t (
                  Ensures-pure x _
                    (device_noted (heard_from input now ip) t (heard_from-id input now ip) h))))

    report-Stays :
        (ip : Text) (input : HeartbeatInput) (now : ℕ) (o : Option TelemetryError)
        → Atomic (Stays d s) Any (accept o (db.transaction (report_tx db d ip input now))) s
    report-Stays ip input now none = transaction-Atomic db _ s (report_tx-Stays ip input now)
    report-Stays ip input now (some e) = Atomic-refuse _ s tt

    pub report-Isolated :
        (ip : Text) (input : HeartbeatInput) (now : ℕ) → Isolated d s (report db d ip input now s).1
    unfolding report
    report-Isolated ip input now =
        Atomic-Isolated d (report db d ip input now) s (λ a t h. h)
          (report-Stays ip input now (validate_input input))

    complete_issued-Stays :
        (now : ℕ) (e : AgentEnrollment)
        → e.device_id ≡ d
        → In e s.enrollments
        → Ensures (Stays d s) Any (complete_issued db e now) s
    unfolding complete_issued
    complete_issued-Stays now e own i =
        elim (Bool-cases (not (e.status == EnrollmentStatus.issued))) [
          | inl t ↦ rw t (Ensures-pure e s (Isolated-refl d s))
          | inr t ↦
              let rest =
                foreign-update_keyed (λ x. x.id) (λ x. x.device_id) d
                  (enrollment_where e.id EnrollmentStatus.issued) (complete now) s.enrollments e
                  (λ y h. ground arith) (In-unique (λ x. x.id) s.enrollments e keys.enrollments i)
                  own own in
              rw t (
                update_where-Ensures db enrollments_table _ _ _ s
                  (refused-Stays d s _ _ _ _ (Ensures-pure (complete now e) _ (ground arith))))
        ]

    confirm_enrollment-Stays :
        (i : ℕ) (ip version : Text) (now : ℕ)
        → Atomic (Stays d s) Any (confirm_enrollment db d i ip version now) s
    unfolding confirm_enrollment confirm_enrollment_tx
    confirm_enrollment-Stays i ip version now = transaction-Atomic db _ s (
        latest_or-Ensures db enrollments_table _ _ _ _ s (λ _. tt)
          λ e holds there _.
            let own : e.device_id ≡ d = ground (arith, nat_beq_iff e.device_id d) in
            Ensures-bind (Stays d s) _ _ s (complete_issued-Stays now e own there) λ x t h.
              update_where-Ensures db devices_table _ _ _ t (
                Ensures-pure x _
                  (device_noted (see_device now ip version) t (λ y. ground arith) h)))

    pub confirm_enrollment-Isolated :
        (i : ℕ) (ip version : Text) (now : ℕ)
        → Isolated d s (confirm_enrollment db d i ip version now s).1
    confirm_enrollment-Isolated i ip version now =
        Atomic-Isolated d (confirm_enrollment db d i ip version now) s (λ a t h. h)
          (confirm_enrollment-Stays i ip version now)
