-- ===== src/Network/Stored.antt =====
-- The transaction of Report: the rows that it builds and stores.
use mathlib.Core.List
use mathlib.Core.List.{append_assoc, append-nil, Permᴰ}
use olimpo.Common.{
  ℕ, ◌≡◌, ◌∙◌, ◌⊎◌, refl, inl, inr, true, not, Option, none, some, List, [], ◌∷◌, ◌++◌, ◌==◌,
  nat_eq, Text, find, update_rows, select,
}
use olimpo.Errors.{NetworkError, network, Refusal}
use olimpo.Gorm.{Gorm, Table}
use olimpo.Gorm.Rules.{Ensures, Ensures-bind, Ensures-pure}
use olimpo.Gorm.Statements.{
  first_or-Ensures, first?-Ensures, delete_where-Ensures, create_row-Ensures,
  create_row-Ensures_last, update_where-Ensures,
}
use olimpo.Model.{
  Database, NetworkIdentitySnapshot, NetworkWan, NetworkSegment, devices_table,
  network_snapshots_table, network_wans_table, network_segments_table,
}
use olimpo.Network.Wan.{build_wan}
use olimpo.Network.Input.{ReportInput}
use olimpo.Credential.Base.{active_device}
use olimpo.Network.Report.{
  DeviceNetworkContext, wan_of, segment_of, snapshot_of, build_segment, build_snapshot, create_each,
  store_identity, report_network_tx,
}

-- The rows built of the inputs, in their order, with the keys that the database chose.
abbrev pub Created : {Row Input : Type 0} → (Input → ℕ → Row) → List Input → List Row → Type 0
Created build [] [] = Unit
Created build [] (r ∷ rs) = ⊥
Created build (x ∷ xs) [] = ⊥
Created build (x ∷ xs) (r ∷ rs) = ((id : ℕ) × (r ≡ build x id)) × Created build xs rs

-- The loop adds those rows at the end of the table.
abbrev pub Appended :
    {Row Input : Type 0}
    → Table Database Row
    → (Input → ℕ → Row)
    → List Input
    → Database
    → List Row
    → Database
    → Type 0
Appended t build xs s rs s' = Created build xs rs × (s' ≡ t.with_rows s (t.rows_of s ++ rs))

module _ (db : Gorm) {Row Input : Type 0} (t : Table Database Row)
    (get : (s : Database) (rows : List Row) → t.rows_of (t.with_rows s rows) ≡ rows)
    (put : (s : Database) (rows more : List Row)
      → t.with_rows (t.with_rows s rows) more ≡ t.with_rows s more)
    (same : (s : Database) → t.with_rows s (t.rows_of s) ≡ s) where
  create_each-Ensures :
      {B : Refusal → Type 0} (build : Input → ℕ → Row) (xs : List Input) (s : Database)
      → Ensures (Appended t build xs s) B (create_each db t build xs) s
  unfolding create_each
  create_each-Ensures build [] s =
      Ensures-pure [] s (tt, rw (append-nil (t.rows_of s), same s) refl)
  create_each-Ensures build (x ∷ xs) s = create_row-Ensures db t _ _ s λ n at pos above.
      let s₁ = t.with_rows s (t.rows_of s ++ build x n ∷ []) in
      Ensures-bind (Appended t build xs s₁) (create_each db t build xs) _ s₁
        (create_each-Ensures build xs s₁)
        λ rs s₂ (made, e). Ensures-pure (build x n ∷ rs) s₂ (
          ((n, refl), made),
          e
              ∙ (put s (t.rows_of s ++ build x n ∷ []) _
                  ∙ rw
                      (
                        get s (t.rows_of s ++ build x n ∷ []),
                        append_assoc (t.rows_of s) (build x n ∷ []) rs,
                      )
                      refl),
        )

-- The snapshot is new where the device had none, and else the one that it had, changed.
abbrev pub SnapshotStored :
    ℕ → Text → ℕ → Database → NetworkIdentitySnapshot → List NetworkIdentitySnapshot → Type 0
SnapshotStored device_id observed now s snapshot rows =
    (snapshot ≡ build_snapshot device_id observed now snapshot.id)
    × (((find (snapshot_of device_id) s.network_snapshots ≡ none)
          × (rows ≡ s.network_snapshots ++ snapshot ∷ []))
        ⊎ ((old : NetworkIdentitySnapshot) × (find (snapshot_of device_id) s.network_snapshots
              ≡ some old)
            × (snapshot.id ≡ old.id)
            × (rows
                ≡ update_rows (λ x. x.id == old.id)
                    (λ x. build_snapshot device_id observed now x.id) s.network_snapshots)))

-- After a report: the snapshot is stored, the device's interfaces and networks are those of the
-- report, built in its order, all other rows stay as they were, and so do all other tables.
abbrev pub Replaced :
    ℕ → Text → ReportInput → ℕ → Database → DeviceNetworkContext → Database → Type 0
Replaced device_id observed input now s c s' =
    (snapshot : NetworkIdentitySnapshot) × (wans : List NetworkWan) × (networks : List
      NetworkSegment)
    × (rows : List NetworkIdentitySnapshot) × (find (active_device device_id) s.devices
        ≡ some c.device)
    × (c.reported ≡ true)
    × (c.snapshot ≡ some snapshot)
    × SnapshotStored device_id observed now s snapshot rows
    × Created (build_wan device_id observed) input.wans wans
    × Created (build_segment device_id) input.networks networks
    × Permᴰ wans c.wans
    × Permᴰ networks c.networks
    × (s' ≡ record s {
      network_snapshots = rows;
      network_wans = select (λ w. not (wan_of device_id w)) s.network_wans ++ wans;
      network_segments = select (λ n. not (segment_of device_id n)) s.network_segments ++ networks;
    })

module _ (db : Gorm) (device_id : ℕ) (observed : Text) (input : ReportInput) (now : ℕ) where
  store_identity-Ensures :
      {B : Refusal → Type 0} (s : Database)
      → Ensures
          (λ x s'.
            (rows : List NetworkIdentitySnapshot) × SnapshotStored device_id observed now s x rows
            × (s' ≡ record s { network_snapshots = rows }))
          B
          (store_identity db
            (find (snapshot_of device_id) s.network_snapshots)
            (build_snapshot device_id observed now))
          s
  unfolding store_identity build_snapshot
  store_identity-Ensures {B = B} s = go (find (snapshot_of device_id) s.network_snapshots) refl
    where
      go :
          (o : Option NetworkIdentitySnapshot)
          → find (snapshot_of device_id) s.network_snapshots ≡ o
          → Ensures
              (λ x s'.
                (rows : List NetworkIdentitySnapshot) × SnapshotStored device_id observed now s x
                  rows
                × (s' ≡ record s { network_snapshots = rows }))
              B
              (store_identity db o (build_snapshot device_id observed now))
              s
      go none e =
          create_row-Ensures_last db network_snapshots_table _ s
            λ n at pos above. (_, (refl, inl (e, refl)), refl)
      go (some old) e =
          update_where-Ensures db network_snapshots_table _ _ _ s
            (Ensures-pure _ _ (_, (refl, inr (old, e, refl, refl)), refl))

  wans_created :
      {B : Refusal → Type 0} (s : Database)
      → Ensures
          (Appended network_wans_table (build_wan device_id observed) input.wans s)
          B
          (create_each db network_wans_table (build_wan device_id observed) input.wans)
          s
  wans_created s =
      create_each-Ensures db network_wans_table (λ t rows. refl) (λ t rows more. refl) (λ t. refl)
        (build_wan device_id observed) input.wans s

  networks_created :
      {B : Refusal → Type 0} (s : Database)
      → Ensures
          (Appended network_segments_table (build_segment device_id) input.networks s)
          B
          (create_each db network_segments_table (build_segment device_id) input.networks)
          s
  networks_created s =
      create_each-Ensures db network_segments_table (λ t rows. refl) (λ t rows more. refl)
        (λ t. refl) (build_segment device_id) input.networks s

  pub report_network_tx-Ensures :
      (s : Database)
      → Ensures
          (Replaced device_id observed input now s)
          (λ r.
            (r ≡ network NetworkError.device_not_found)
            × (find (active_device device_id) s.devices ≡ none))
          (report_network_tx db device_id observed input now)
          s
  unfolding report_network_tx
  report_network_tx-Ensures s =
      first_or-Ensures db devices_table _ _ _ s (λ h. (refl, h))
        λ device present. first?-Ensures db network_snapshots_table _ _ s (
          Ensures-bind _ _ _ s (store_identity-Ensures s) λ snapshot s₁ (rows, stored, e₁).
            delete_where-Ensures db network_wans_table _ _ s₁ (
              delete_where-Ensures db network_segments_table _ _ _ (
                Ensures-bind _ _ _ _ (wans_created _) λ wans s₂ (made, e₂).
                  Ensures-bind _ _ _ s₂ (networks_created s₂) λ networks s₃ (built, e₃).
                    Ensures-pure _ s₃ (
                      snapshot,
                      wans,
                      networks,
                      rows,
                      present,
                      refl,
                      refl,
                      stored,
                      made,
                      built,
                      List.Permᴰ.refl wans,
                      List.Permᴰ.refl networks,
                      e₃ ∙ rw (e₂, e₁) refl,
                    ))))
