-- ===== src/Credential/Steps.antt =====
-- What the proofs about the methods share: how a loaded rotation stands in a sound state, why a step
-- is refused, and the rules for the checks of Base.
use mathlib.Core.Option.{some-injective, none-ne-some}
use olimpo.Common.{
  ℕ, ◌≡◌, ◌≢◌, ◌⊎◌, Bool, true, false, not, ◌&&◌, Option, none, some, arith, ◌==◌, nat_eq, find,
  find_holds, find-by_id,
}
use olimpo.Errors.{rotation_not_found, invalid_rotation_state, Refusal, credential}
use olimpo.Gorm.{Exec}
use olimpo.Gorm.Rules.{Ensures}
use olimpo.Model.{Database, DdnsCredentialRotation, RotationStatus, rotation_status_eq}
use olimpo.Credential.Base.{deref, one_row}
use olimpo.Credential.Invariant.{rotation_at, IsSound}

-- The rotation that a device names.
abbrev pub rotation_of : ℕ → ℕ → DdnsCredentialRotation → Bool
rotation_of rotation_id device_id r = r.id == rotation_id && r.device_id == device_id

-- Why a step that wants a rotation of one status is refused.
abbrev pub Unfit : Database → ℕ → ℕ → RotationStatus → Refusal → Type 0
Unfit s rotation_id device_id status e =
    ((e ≡ credential rotation_not_found)
      × (find (rotation_of rotation_id device_id) s.rotations ≡ none))
    ⊎ ((r : DdnsCredentialRotation) × (e ≡ credential invalid_rotation_state)
        × (find (rotation_of rotation_id device_id) s.rotations ≡ some r)
        × (r.status ≢ status))

-- What the load of a rotation says of it.
pub loaded :
    (s : Database) (v : IsSound s) (rotation_id device_id : ℕ) (r : DdnsCredentialRotation)
    → find (rotation_of rotation_id device_id) s.rotations ≡ some r
    → (r.id ≡ rotation_id) × (r.device_id ≡ device_id) × (rotation_at r.id s.rotations ≡ some r)
loaded s v rotation_id device_id r h =
    let t : rotation_of rotation_id device_id r ≡ true = find_holds _ s.rotations r h in
    (ground arith, ground arith, find-by_id (λ x. x.id) _ s.rotations r v.rotations_ascending h)

module _ {A : Type 0} {G : A → Database → Type 0} {B : Refusal → Type 0} where
  pub deref-Ensures :
      (o : Option ℕ) (n : ℕ) (k : ℕ → Exec Database A) (s : Database)
      → o ≡ some n
      → Ensures G B (k n) s
      → Ensures G B (deref o k) s
  deref-Ensures none n k s e h = absurd (none-ne-some n e)
  deref-Ensures (some m) n k s e h = rw (some-injective m n e) h

  pub one_row-Ensures :
      (n : ℕ) (rest : Exec Database A) (s : Database)
      → n ≡ 1
      → Ensures G B rest s
      → Ensures G B (one_row n rest) s
  one_row-Ensures n rest s e h = rw e h

pub same_status : (a b : RotationStatus) → not (a == b) ≡ false → a ≡ b
same_status a b h = ground (arith, rotation_status_eq.agrees a b)

pub other_status : (a b : RotationStatus) → not (a == b) ≡ true → a ≢ b
other_status a b h = ground (arith, rotation_status_eq.agrees a b)
