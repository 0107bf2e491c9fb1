-- ===== src/Telemetry/Snapshots.antt =====
-- The table of telemetry snapshots: what makes it valid, and the writes that keep it so.
use mathlib.Core.Option.{some-injective}
use olimpo.Common.{
  ℕ, ◌<◌, ◌≡◌, refl, sym, ◌∙◌, ap, subst, inl, inr, Bool, false, Option, none, some, List, [], ◌∷◌,
  ◌++◌, All, Text, arith, ◌==◌, nat_eq, nat_beq_iff, find, update_rows, by_id, Ascending,
  Bool-cases, find_holds, find-none, find-update_inv, find-update_hit, update_rows-Ascending,
  append-Ascending, find-append_inv, find-append,
}
use olimpo.Model.{Device, AgentTelemetrySnapshot}
use olimpo.Telemetry.{apply_heartbeat, base_snapshot, stamp}
use olimpo.Telemetry.Input.{HeartbeatInput, validate_snapshot}

abbrev pub snapshot_at : ℕ → List AgentTelemetrySnapshot → Option AgentTelemetrySnapshot
snapshot_at i = find (by_id (λ x. x.id) i)

abbrev pub snapshot_of : ℕ → AgentTelemetrySnapshot → Bool
snapshot_of d x = x.device_id == d

pub record ValidSnapshots (xs : List AgentTelemetrySnapshot) : Type 0 where
  pub ascending : Ascending (λ x. x.id) xs
  pub valid :
      (i : ℕ) (x : AgentTelemetrySnapshot) → snapshot_at i xs ≡ some x → validate_snapshot x ≡ none
  pub one_each :
      (i j : ℕ) (x y : AgentTelemetrySnapshot)
      → snapshot_at i xs ≡ some x
      → snapshot_at j xs ≡ some y
      → x.device_id ≡ y.device_id
      → i ≡ j

-- The snapshot that a heartbeat makes, before it has a key.
abbrev pub merged :
    Device → ℕ → Text → HeartbeatInput → ℕ → Option AgentTelemetrySnapshot → AgentTelemetrySnapshot
merged device d ip input now old = apply_heartbeat input (stamp now ip (base_snapshot device d old))

key_of :
    (i : ℕ) (x : AgentTelemetrySnapshot) (xs : List AgentTelemetrySnapshot)
    → snapshot_at i xs ≡ some x
    → x.id ≡ i
key_of i x xs h = (nat_beq_iff x.id i).0 (find_holds (by_id (λ z. z.id) i) xs x h)

-- A first snapshot of a device.
module _ (xs : List AgentTelemetrySnapshot) (v : ValidSnapshots xs) (x : AgentTelemetrySnapshot)
    (above : All (λ y. y.id < x.id) xs) (fine : validate_snapshot x ≡ none)
    (alone : find (snapshot_of x.device_id) xs ≡ none) where
  new_device :
      (i : ℕ) (y : AgentTelemetrySnapshot)
      → snapshot_at i xs ≡ some y
      → y.device_id ≡ x.device_id
      → ⊥
  new_device i y h same =
      let f : snapshot_of x.device_id y ≡ false = find-none _ (by_id (λ z. z.id) i) xs y alone h in
      ground arith

  pub snapshot_new : snapshot_at x.id (xs ++ x ∷ []) ≡ some x
  snapshot_new = find-append (λ z. z.id) x.id xs x above ∙ rw ((nat_beq_iff x.id x.id).1 refl) refl

  pub append-ValidSnapshots : ValidSnapshots (xs ++ x ∷ [])
  append-ValidSnapshots = record {
    ascending = append-Ascending (λ z. z.id) xs x v.ascending above;
    valid = λ i y h. elim (find-append_inv (λ z. z.id) i xs x y h) [
      | inl e ↦ ap validate_snapshot e ∙ fine
      | inr o ↦ v.valid i y o
    ];
    one_each = λ i j y z hy hz same. elim (find-append_inv (λ w. w.id) i xs x y hy) [
      | inl ey ↦ elim (find-append_inv (λ w. w.id) j xs x z hz) [
        | inl ez ↦
            sym (key_of i y _ hy)
            ∙ ap (λ (w : AgentTelemetrySnapshot). w.id) (ey ∙ sym ez)
            ∙ key_of j z _ hz
        | inr oz ↦
            absurd
              (new_device j z oz (sym same ∙ ap (λ (w : AgentTelemetrySnapshot). w.device_id) ey))
      ]
      | inr oy ↦ elim (find-append_inv (λ w. w.id) j xs x z hz) [
        | inl ez ↦
            absurd (new_device i y oy (same ∙ ap (λ (w : AgentTelemetrySnapshot). w.device_id) ez))
        | inr oz ↦ v.one_each i j y z oy oz same
      ]
    ];
  }

-- A later snapshot of a device.
module _ (xs : List AgentTelemetrySnapshot) (v : ValidSnapshots xs) (old x : AgentTelemetrySnapshot)
    (at : snapshot_at old.id xs ≡ some old) (same_key : x.id ≡ old.id)
    (same_device : x.device_id ≡ old.device_id)
    (fine : (n : ℕ) → validate_snapshot (record x { id = n }) ≡ none) where
  abbrev pub saved : List AgentTelemetrySnapshot
  saved = update_rows (λ r. r.id == old.id) (λ r. record x { id = r.id }) xs

  pub saved_at : snapshot_at old.id saved ≡ some (record x { id = old.id })
  saved_at =
      find-update_hit (λ r. r.id) (λ r. r.id == old.id) (λ r. record x { id = r.id }) xs (λ r. refl)
        old.id old at ((nat_beq_iff old.id old.id).1 refl)

  -- A row of the new table, with the row of its key before.
  pub before :
      (i : ℕ) (y : AgentTelemetrySnapshot)
      → snapshot_at i saved ≡ some y
      → (r : AgentTelemetrySnapshot) × (snapshot_at i xs ≡ some r)
        × (y.device_id ≡ r.device_id)
        × (validate_snapshot y ≡ none)
  before i y h =
      let (r, e, own) =
        find-update_inv (λ r. r.id) (λ r. r.id == old.id) (λ r. record x { id = r.id }) xs
          (λ r. refl) i y h in
      elim (Bool-cases (r.id == old.id)) [
        | inl t ↦
            let key : i ≡ old.id = sym (key_of i r xs e) ∙ (nat_beq_iff r.id old.id).0 t in
            let here : r ≡ old =
              some-injective r old
                (sym e ∙ subst (λ k. snapshot_at k xs ≡ some old) (sym key) at) in
            let now : y ≡ record x { id = r.id } = own ∙ rw t refl in
            (
              r,
              e,
              ap (λ (w : AgentTelemetrySnapshot). w.device_id) now
                  ∙ same_device
                  ∙ sym (ap (λ (w : AgentTelemetrySnapshot). w.device_id) here),
              ap validate_snapshot now ∙ fine r.id,
            )
        | inr t ↦
            let now : y ≡ r = own ∙ rw t refl in
            (
              r,
              e,
              ap (λ (w : AgentTelemetrySnapshot). w.device_id) now,
              ap validate_snapshot now ∙ v.valid i r e,
            )
      ]

  pub save-ValidSnapshots : ValidSnapshots saved
  save-ValidSnapshots = record {
    ascending = update_rows-Ascending (λ r. r.id) _ _ xs (λ r. refl) v.ascending;
    valid = λ i y h. let (_, _, _, w) = before i y h in w;
    one_each = λ i j y z hy hz same.
        let (a, ea, da, _) = before i y hy in
        let (b, eb, db, _) = before j z hz in v.one_each i j a b ea eb (sym da ∙ same ∙ db);
  }
