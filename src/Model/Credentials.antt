-- ===== src/Model/Credentials.antt =====
-- credential.go, credential_rotation.go, device_identity_credential.go and agent_enrollment.go.
use olimpo.Common.{ℕ, ℤ, Text, Option}
use olimpo.Model.Status.{CredentialStatus, RotationStatus, EnrollmentStatus}

pub record DdnsCredential : Type 0 where
  pub id : ℕ
  pub device_id : ℕ
  pub key_id : Text
  pub secret_hash : Text
  pub status : CredentialStatus
  pub activated_at : Option ℕ
  pub confirmed_at : Option ℕ
  pub expires_at : Option ℕ
  pub revoked_at : Option ℕ
  pub grace_until : Option ℕ
  pub last_used_at : Option ℕ
  pub last_used_ip : Text
  pub replaces_credential_id : Option ℕ

pub record DdnsCredentialRotation : Type 0 where
  pub id : ℕ
  pub created_at : ℕ
  pub device_id : ℕ
  pub previous_credential_id : ℕ
  pub new_credential_id : Option ℕ
  pub status : RotationStatus
  pub grace_minutes : ℤ
  pub requested_at : ℕ
  pub staged_at : Option ℕ
  pub validation_started_at : Option ℕ
  pub confirmed_at : Option ℕ
  pub grace_until : Option ℕ
  pub completed_at : Option ℕ
  pub rolled_back_at : Option ℕ
  pub last_error : Text

pub record DeviceIdentityCredential : Type 0 where
  pub id : ℕ
  pub device_id : ℕ
  pub credential_id : Text
  pub secret_hash : Text
  pub status : CredentialStatus
  pub activated_at : Option ℕ
  pub expires_at : Option ℕ
  pub revoked_at : Option ℕ
  pub last_used_at : Option ℕ
  pub last_used_ip : Text

pub record AgentEnrollment : Type 0 where
  pub id : ℕ
  pub created_at : ℕ
  pub device_id : ℕ
  pub token_id : Text
  pub secret_hash : Text
  pub status : EnrollmentStatus
  pub expires_at : ℕ
  pub issued_at : Option ℕ
  pub completed_at : Option ℕ
  pub revoked_at : Option ℕ
  pub used_ip : Text
  pub agent_credential_id : Option ℕ
