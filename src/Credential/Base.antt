-- ===== src/Credential/Base.antt =====
-- products/hermes/internal/credential/service.go: the constants, the conditions of the statements
-- and the checks that the methods share.
use olimpo.Common.{
  ℕ, suc, ◌+◌, ◌-◌, ◌*◌, Bool, true, false, not, ◌&&◌, Option, none, some, ◌==◌, nat_eq, Text,
  length, if◌then◌else◌, ℤ, pos, negsuc,
}
use olimpo.Errors.{invalid_rotation_state, credential, Error, refused}
use olimpo.Gorm.{Exec, refuse}
use olimpo.Model.{
  Database, Device, DdnsCredential, DdnsCredentialRotation, CredentialStatus, RotationStatus,
  DeviceStatus, credential_status_eq, device_status_eq,
}
use olimpo.Text.{hex_decode, has_length}

-- MinGraceMinutes, MaxGraceMinutes
abbrev pub min_grace_minutes : ℤ
min_grace_minutes = pos 1

abbrev pub max_grace_minutes : ℤ
max_grace_minutes = pos 1440

-- time.Minute
abbrev pub minute : ℕ
minute = 60000000000

-- now.Add(time.Duration(minutes) * time.Minute)
abbrev pub add_minutes : ℕ → ℤ → ℕ
add_minutes now (pos n) = now + n * minute
add_minutes now (negsuc n) = now - suc n * minute

-- openRotationStatuses, under `IN`
abbrev pub is_open : RotationStatus → Bool
is_open RotationStatus.requested = true
is_open RotationStatus.staged = true
is_open RotationStatus.validating = true
is_open RotationStatus.grace = true
is_open _ = false

-- `id = ? AND device_id = ? AND status = ?`
abbrev pub credential_where : ℕ → ℕ → CredentialStatus → DdnsCredential → Bool
credential_where i d status c = c.id == i && c.device_id == d && c.status == status

abbrev pub active_device : ℕ → Device → Bool
active_device i d = d.id == i && d.status == DeviceStatus.active

abbrev pub invalid_state : Error
invalid_state = refused (credential invalid_rotation_state)

-- `if updated.RowsAffected != 1 { return ErrInvalidRotationState }`
abbrev pub one_row : {A : Type 0} → ℕ → Exec Database A → Exec Database A
one_row n rest = if not (n == 1) then refuse (credential invalid_rotation_state) else rest

-- validHexBytes
unfoldable pub valid_hex_bytes : Text → ℕ → Bool
valid_hex_bytes value byte_count =
    if not (length value == byte_count * 2) then false else has_length (hex_decode value) byte_count

abbrev pub is_some : Option ℕ → Bool
is_some none = false
is_some (some i) = true

-- `new_credential_id = ?`, which no NULL meets.
abbrev pub points_to : Option ℕ → ℕ → Bool
points_to none i = false
points_to (some j) i = j == i

-- `if p == nil { return ErrInvalidRotationState }`, and then `*p`
abbrev pub deref : {A : Type 0} → Option ℕ → (ℕ → Exec Database A) → Exec Database A
deref none k = refuse (credential invalid_rotation_state)
deref (some i) k = k i

-- What the `Updates` write to a credential.
abbrev pub activate : ℕ → DdnsCredential → DdnsCredential
activate now c = record c { status = CredentialStatus.active; activated_at = some now }

abbrev pub confirm : ℕ → DdnsCredential → DdnsCredential
confirm now c = record c { confirmed_at = some now }

abbrev pub enter_grace : ℕ → DdnsCredential → DdnsCredential
enter_grace until c = record c { status = CredentialStatus.grace; grace_until = some until }

abbrev pub leave_grace : DdnsCredential → DdnsCredential
leave_grace c = record c { status = CredentialStatus.active; grace_until = none }

abbrev pub revoke : ℕ → DdnsCredential → DdnsCredential
revoke now c = record c { status = CredentialStatus.revoked; revoked_at = some now }

-- What they write to a rotation.
abbrev pub to_staged : ℕ → ℕ → DdnsCredentialRotation → DdnsCredentialRotation
to_staged candidate now r = record r {
  new_credential_id = some candidate;
  status = RotationStatus.staged;
  staged_at = some now;
}

abbrev pub to_validating : ℕ → DdnsCredentialRotation → DdnsCredentialRotation
to_validating now r = record r {
  status = RotationStatus.validating;
  validation_started_at = some now;
}

abbrev pub to_grace : ℕ → ℕ → DdnsCredentialRotation → DdnsCredentialRotation
to_grace now until r = record r {
  status = RotationStatus.grace;
  confirmed_at = some now;
  grace_until = some until;
}

abbrev pub to_completed : ℕ → DdnsCredentialRotation → DdnsCredentialRotation
to_completed now r = record r { status = RotationStatus.completed; completed_at = some now }

abbrev pub to_rolled_back : ℕ → Text → DdnsCredentialRotation → DdnsCredentialRotation
to_rolled_back now reason r = record r {
  status = RotationStatus.rolled_back;
  rolled_back_at = some now;
  last_error = reason;
}
