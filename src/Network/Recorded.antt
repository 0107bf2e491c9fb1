-- ===== src/Network/Recorded.antt =====
-- What every stored row of the network identity satisfies, whatever devices report.
use mathlib.Core.Option.{some-injective, none-ne-some}
use olimpo.Common.{
  ℕ, ◌≡◌, ◌<◌, refl, ap, sym, subst, ◌∙◌, inl, inr, Bool, true, not, some, List, [], ◌∷◌, ◌++◌,
  ◌==◌, nat_eq, nat_beq_iff, Text, arith, find, find_holds, update_rows, All, All-select,
  Bool-cases, Ascending,
}
use olimpo.Gorm.{Gorm}
use olimpo.Gorm.Outcomes.{Atomic-after}
use olimpo.Model.{Database, NetworkIdentitySnapshot}
use olimpo.Text.{trim_space}
use olimpo.Network.Wan.{build_wan}
use olimpo.Network.Flags.{IsConsistent, build_wan-IsConsistent}
use olimpo.Network.Input.{ReportInput}
use olimpo.Network.Report.{
  DeviceNetworkContext, wan_of, segment_of, snapshot_of, build_segment, build_snapshot,
  report_network,
}
use olimpo.Network.Replaced.{report_network_Sound}
use olimpo.Network.Stored.{Created, SnapshotStored, Replaced}

abbrev pub HasSnapshot : List NetworkIdentitySnapshot → ℕ → Type 0
HasSnapshot rows device_id =
    (x : NetworkIdentitySnapshot) × (find (snapshot_of device_id) rows ≡ some x)

-- Every interface has the flags that its addresses stand for, and belongs to a device with a
-- snapshot, as does every network.
abbrev pub IsRecorded : Database → Type 0
IsRecorded s =
    All (λ w. IsConsistent w × HasSnapshot s.network_snapshots w.device_id) s.network_wans
    × All (λ n. HasSnapshot s.network_snapshots n.device_id) s.network_segments

module _ {A : Type 0} where
  pub All-weaken : (P Q : A → Type 0) (xs : List A) → ((x : A) → P x → Q x) → All P xs → All Q xs
  All-weaken P Q [] f h = tt
  All-weaken P Q (x ∷ xs) f h = (f x h.0, All-weaken P Q xs f h.1)

  All-append : (P : A → Type 0) (xs ys : List A) → All P xs → All P ys → All P (xs ++ ys)
  All-append P [] ys h k = k
  All-append P (x ∷ xs) ys h k = (h.0, All-append P xs ys h.1 k)

  -- A row of the key of a found row is that row.
  All-same :
      (id : A → ℕ) (p : A → Bool) (xs : List A) (r : A)
      → Ascending id xs
      → find p xs ≡ some r
      → All (λ x. id x ≡ id r → x ≡ r) xs
  unfolding find
  All-same id p [] r a h = tt
  All-same id p (x ∷ xs) r a h = elim (Bool-cases (p x)) [
    | inl t ↦
        let e : x ≡ r = some-injective x r (rw t at h) in
        (
          λ k. e,
          All-weaken (λ y. id x < id y) (λ y. id y ≡ id r → y ≡ r) xs
              (λ y l k. absurd (omega (arith, ap id e))) a.0,
        )
    | inr t ↦
        let ih = All-same id p xs r a.1 (rw t at h) in
        (λ k. absurd (below p xs (rw t at h) a.0 k), ih)
  ]
    where
      below :
          (q : A → Bool) (ys : List A)
          → find q ys ≡ some r
          → All (λ y. id x < id y) ys
          → id x ≡ id r
          → ⊥
      below q [] f b k = none-ne-some r f
      below q (y ∷ ys) f b k = elim (Bool-cases (q y)) [
        | inl u ↦ let e : y ≡ r = some-injective y r (rw u at f) in absurd (ground arith)
        | inr u ↦ below q ys (rw u at f) b.1 k
      ]

  Created-All :
      {Input : Type 0} (P : A → Type 0) (build : Input → ℕ → A) (xs : List Input) (rs : List A)
      → ((x : Input) (id : ℕ) → P (build x id))
      → Created build xs rs
      → All P rs
  Created-All P build [] [] f h = tt
  Created-All P build [] (r ∷ rs) f h = absurd h
  Created-All P build (x ∷ xs) [] f h = absurd h
  Created-All P build (x ∷ xs) (r ∷ rs) f ((id, e), h) =
      (subst P (sym e) (f x id), Created-All P build xs rs f h)

find-append_some :
    (p : NetworkIdentitySnapshot → Bool) (xs : List NetworkIdentitySnapshot)
    (r x : NetworkIdentitySnapshot)
    → find p xs ≡ some x
    → find p (xs ++ r ∷ []) ≡ some x
unfolding find
find-append_some p [] r x h = absurd (none-ne-some x h)
find-append_some p (y ∷ ys) r x h = elim (Bool-cases (p y)) [
  | inl t ↦ rw t (rw t at h)
  | inr t ↦ rw t (find-append_some p ys r x (rw t at h))
]

find-append_hit :
    (p : NetworkIdentitySnapshot → Bool) (xs : List NetworkIdentitySnapshot)
    (r : NetworkIdentitySnapshot)
    → p r ≡ true
    → (x : NetworkIdentitySnapshot) × (find p (xs ++ r ∷ []) ≡ some x)
unfolding find
find-append_hit p [] r h = (r, rw h refl)
find-append_hit p (y ∷ ys) r h = elim (Bool-cases (p y)) [
  | inl t ↦ (y, rw t refl)
  | inr t ↦ rw t (find-append_hit p ys r h)
]

-- An update that keeps the devices of the rows that it changes.
find-update_some :
    (p q : NetworkIdentitySnapshot → Bool) (f : NetworkIdentitySnapshot → NetworkIdentitySnapshot)
    (xs : List NetworkIdentitySnapshot) (x : NetworkIdentitySnapshot)
    → All (λ y. q y ≡ true → p (f y) ≡ p y) xs
    → find p xs ≡ some x
    → (z : NetworkIdentitySnapshot) × (find p (update_rows q f xs) ≡ some z)
unfolding find update_rows
find-update_some p q f [] x k h = absurd (none-ne-some x h)
find-update_some p q f (y ∷ ys) x k h = elim (Bool-cases (q y)) [
  | inl u ↦ rw u (elim (Bool-cases (p y)) [
    | inl t ↦ (f y, rw (k.0 u ∙ t) refl)
    | inr t ↦ rw (k.0 u ∙ t) (find-update_some p q f ys x k.1 (rw t at h))
  ])
  | inr u ↦ rw u (elim (Bool-cases (p y)) [
    | inl t ↦ (y, rw t refl)
    | inr t ↦ rw t (find-update_some p q f ys x k.1 (rw t at h))
  ])
]

snapshot-kept :
    (device_id : ℕ) (observed : Text) (now : ℕ) (s : Database) (x : NetworkIdentitySnapshot)
    (rows : List NetworkIdentitySnapshot)
    → Ascending (λ r. r.id) s.network_snapshots
    → SnapshotStored device_id observed now s x rows
    → (d : ℕ) → HasSnapshot s.network_snapshots d
    → HasSnapshot rows d
unfolding build_snapshot
snapshot-kept device_id observed now s x rows a (e, inl (absent, r)) d (y, h) =
    rw r (y, find-append_some (snapshot_of d) s.network_snapshots x y h)
snapshot-kept device_id observed now s x rows a (e, inr (old, present, i, r)) d (y, h) = rw r (
    find-update_some (snapshot_of d) (λ z. z.id == old.id)
      (λ z. build_snapshot device_id observed now z.id) s.network_snapshots y keeps h)
  where
    own : old.device_id ≡ device_id
    own =
        (nat_beq_iff old.device_id device_id).0
          (find_holds (snapshot_of device_id) s.network_snapshots old present)

    keeps :
        All
          (λ z.
            (z.id == old.id) ≡ true
            → snapshot_of d (build_snapshot device_id observed now z.id) ≡ snapshot_of d z)
          s.network_snapshots
    keeps =
        All-weaken (λ z. z.id ≡ old.id → z ≡ old) _ s.network_snapshots
          (λ z same k.
            let e : z.device_id ≡ device_id =
              ap (λ u. u.device_id) (same ((nat_beq_iff z.id old.id).0 k)) ∙ own in
            rw e refl)
          (All-same (λ r. r.id) (snapshot_of device_id) s.network_snapshots old a present)

snapshot-there :
    (device_id : ℕ) (observed : Text) (now : ℕ) (s : Database) (x : NetworkIdentitySnapshot)
    (rows : List NetworkIdentitySnapshot)
    → Ascending (λ r. r.id) s.network_snapshots
    → SnapshotStored device_id observed now s x rows
    → HasSnapshot rows device_id
unfolding build_snapshot
snapshot-there device_id observed now s x rows a (e, inl (absent, r)) =
    rw r (find-append_hit (snapshot_of device_id) s.network_snapshots x (rw e (ground arith)))
snapshot-there device_id observed now s x rows a (e, inr (old, present, i, r)) =
    snapshot-kept device_id observed now s x rows a (e, inr (old, present, i, r)) device_id
      (old, present)

Replaced-IsRecorded :
    (device_id : ℕ) (observed : Text) (input : ReportInput) (now : ℕ) (s : Database)
    (c : DeviceNetworkContext) (s' : Database)
    → Ascending (λ r. r.id) s.network_snapshots
    → IsRecorded s
    → Replaced device_id observed input now s c s'
    → IsRecorded s'
unfolding build_wan build_segment
Replaced-IsRecorded device_id observed input now s c s' a (wans_ok, networks_ok)
      (x, ws, ns, rows, d, r, e, st, mw, mn, pw, pn, f) =
    rw f (
      All-append _ _ ws
          (All-select _ (λ w. not (wan_of device_id w)) s.network_wans
            (All-weaken _ _ s.network_wans (λ w (k, h). (k, kept w.device_id h)) wans_ok))
          (Created-All _ (build_wan device_id observed) input.wans ws
            (λ i id. (build_wan-IsConsistent device_id observed i id, there)) mw),
      All-append _ _ ns
          (All-select _ (λ n. not (segment_of device_id n)) s.network_segments
            (All-weaken _ _ s.network_segments (λ n h. kept n.device_id h) networks_ok))
          (Created-All _ (build_segment device_id) input.networks ns (λ i id. there) mn),
    )
  where
    kept : (k : ℕ) → HasSnapshot s.network_snapshots k → HasSnapshot rows k
    kept = snapshot-kept device_id observed now s x rows a st

    there : HasSnapshot rows device_id
    there = snapshot-there device_id observed now s x rows a st

-- Whatever a device reports, and whether or not the report succeeds, every stored interface still
-- has the scope, the state, the flags and the match that its own addresses stand for, and every
-- stored interface and network still belongs to a device with a snapshot, if this held before and
-- the snapshots are in the order of their keys.
pub report_network-IsRecorded :
    (db : Gorm) (is_ipv6 : Text → Bool) (device_id : ℕ) (server : Text) (input : ReportInput)
    (now : ℕ) (s : Database)
    → Ascending (λ r. r.id) s.network_snapshots
    → IsRecorded s
    → IsRecorded (report_network db is_ipv6 device_id server input now s).1
report_network-IsRecorded db is_ipv6 device_id server input now s a h =
    Atomic-after IsRecorded (report_network db is_ipv6 device_id server input now) s h
      (λ c s' (_, r, sorted, named).
        Replaced-IsRecorded device_id (trim_space server) input now s c s' a h r)
      (report_network_Sound db is_ipv6 device_id server input now s)
