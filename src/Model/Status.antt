-- ===== src/Model/Status.antt =====
-- The status constants of the model package, one enumeration for each table, with their equality.
use mathlib.Core.Path.{◌≡◌}
use olimpo.Common.{Bool, true, false, ◌↔◌, arith, Eq}

-- credential.go
pub data CredentialStatus : Type 0 where
  pending active grace revoked expired : CredentialStatus

-- credential_rotation.go
pub data RotationStatus : Type 0 where
  requested staged validating grace completed rolled_back : RotationStatus

-- agent_enrollment.go
pub data EnrollmentStatus : Type 0 where
  pending issued completed revoked expired : EnrollmentStatus

-- `Device.Status`: "active", or any other text
pub data DeviceStatus : Type 0 where
  active inactive : DeviceStatus

abbrev pub credential_beq : CredentialStatus → CredentialStatus → Bool
credential_beq CredentialStatus.pending CredentialStatus.pending = true
credential_beq CredentialStatus.active CredentialStatus.active = true
credential_beq CredentialStatus.grace CredentialStatus.grace = true
credential_beq CredentialStatus.revoked CredentialStatus.revoked = true
credential_beq CredentialStatus.expired CredentialStatus.expired = true
credential_beq _ _ = false

pub credential_beq_iff : (a b : CredentialStatus) → (credential_beq a b ≡ true) ↔ (a ≡ b)
credential_beq_iff a b = ground arith

instance abbrev pub credential_status_eq : Eq CredentialStatus
credential_status_eq = record { agrees = credential_beq_iff; test = credential_beq }

abbrev pub rotation_beq : RotationStatus → RotationStatus → Bool
rotation_beq RotationStatus.requested RotationStatus.requested = true
rotation_beq RotationStatus.staged RotationStatus.staged = true
rotation_beq RotationStatus.validating RotationStatus.validating = true
rotation_beq RotationStatus.grace RotationStatus.grace = true
rotation_beq RotationStatus.completed RotationStatus.completed = true
rotation_beq RotationStatus.rolled_back RotationStatus.rolled_back = true
rotation_beq _ _ = false

pub rotation_beq_iff : (a b : RotationStatus) → (rotation_beq a b ≡ true) ↔ (a ≡ b)
rotation_beq_iff a b = ground arith

instance abbrev pub rotation_status_eq : Eq RotationStatus
rotation_status_eq = record { agrees = rotation_beq_iff; test = rotation_beq }

abbrev pub enrollment_beq : EnrollmentStatus → EnrollmentStatus → Bool
enrollment_beq EnrollmentStatus.pending EnrollmentStatus.pending = true
enrollment_beq EnrollmentStatus.issued EnrollmentStatus.issued = true
enrollment_beq EnrollmentStatus.completed EnrollmentStatus.completed = true
enrollment_beq EnrollmentStatus.revoked EnrollmentStatus.revoked = true
enrollment_beq EnrollmentStatus.expired EnrollmentStatus.expired = true
enrollment_beq _ _ = false

pub enrollment_beq_iff : (a b : EnrollmentStatus) → (enrollment_beq a b ≡ true) ↔ (a ≡ b)
enrollment_beq_iff a b = ground arith

instance abbrev pub enrollment_status_eq : Eq EnrollmentStatus
enrollment_status_eq = record { agrees = enrollment_beq_iff; test = enrollment_beq }

abbrev pub device_beq : DeviceStatus → DeviceStatus → Bool
device_beq DeviceStatus.active DeviceStatus.active = true
device_beq DeviceStatus.inactive DeviceStatus.inactive = true
device_beq _ _ = false

pub device_beq_iff : (a b : DeviceStatus) → (device_beq a b ≡ true) ↔ (a ≡ b)
device_beq_iff a b = ground arith

instance abbrev pub device_status_eq : Eq DeviceStatus
device_status_eq = record { agrees = device_beq_iff; test = device_beq }
