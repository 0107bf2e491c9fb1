-- ===== src/Credential/Runner.antt =====
-- RunReconciler of service.go. The ticks that arrive before the context is done are given, each with
-- the time that its reconciliation reads.
use olimpo.Common.{ℕ, Bool, true, none, some, List, [], ◌∷◌, ltb, if◌then◌else◌, ℤ, pos, ltb_ℤ}
use olimpo.Gorm.{Gorm}
use olimpo.Model.{Database}
use olimpo.Credential.Base.{minute}
use olimpo.Credential.Finish.{Reconciled, reconcile_expired_grace}

-- DefaultReconcileInterval, where the interval is not positive
abbrev pub reconcile_interval : ℤ → ℤ
reconcile_interval interval = if ltb_ℤ (pos 0) interval then interval else pos minute

-- `err != nil || completed > 0`
abbrev pub needs_report : Reconciled → Bool
needs_report (completed, none) = ltb 0 completed
needs_report (completed, some e) = true

abbrev pub with_report : Reconciled → List Reconciled → List Reconciled
with_report outcome later = if needs_report outcome then outcome ∷ later else later

-- `reconcile()`, and what follows it
abbrev pub note_outcome :
    (Database → List Reconciled × Database) → Reconciled × Database → List Reconciled × Database
note_outcome next (outcome, s) = (with_report outcome (next s).0, (next s).1)

-- RunReconciler: one reconciliation at the start and one for each tick; what is reported, in order,
-- and the database at the end
unfoldable pub run_reconciler : Gorm → ℕ → List ℕ → Database → List Reconciled × Database
run_reconciler db now [] s = note_outcome (λ t. ([], t)) (reconcile_expired_grace db now s)
run_reconciler db now (tick ∷ ticks) s =
    note_outcome (run_reconciler db tick ticks) (reconcile_expired_grace db now s)
