-- ===== src/Tests/Sample.antt =====
-- A small database: one active device with one active DDNS credential.
use mathlib.Core.Option.{none-ne-some}
use olimpo.Common.{[], ◌∷◌, none, find, pos}
use olimpo.Gorm.Memory.{memory}
use olimpo.Model.{Database, Device, DdnsCredential, DeviceStatus, CredentialStatus}
use olimpo.Text.{text}
use olimpo.Credential.Invariant.{IsSound}
use olimpo.Credential.History.{run, run-IsSound, request, stage, validate, use_credential}

abbrev pub router : Device
router = record {
  id = 7;
  name = text "udm-7";
  display_name = text "UDM";
  kind = text "udm";
  status = DeviceStatus.active;
  last_seen_at = none;
  last_ip = [];
  agent_version = [];
}

abbrev pub first_key : DdnsCredential
first_key = record {
  id = 1;
  device_id = 7;
  key_id = text "0123456789abcdef";
  secret_hash = [];
  status = CredentialStatus.active;
  activated_at = none;
  confirmed_at = none;
  expires_at = none;
  revoked_at = none;
  grace_until = none;
  last_used_at = none;
  last_used_ip = [];
  replaces_credential_id = none;
}

abbrev pub sample : Database
sample = record {
  domains = [];
  devices = router ∷ [];
  agent_credentials = [];
  enrollments = [];
  telemetry_snapshots = [];
  network_snapshots = [];
  network_wans = [];
  network_segments = [];
  ddns_credentials = first_key ∷ [];
  rotations = [];
  hosts = [];
  update_logs = [];
}

pub sample-IsSound : IsSound sample
unfolding find
sample-IsSound = record {
  credentials_ascending = (tt, tt);
  rotations_ascending = tt;
  supported = λ i r h. absurd (none-ne-some r h);
  one_open = λ i j r q h. absurd (none-ne-some r h);
}

-- The same database after each step of a rotation.
abbrev pub requested_db : Database
requested_db = run memory (request 7 (pos 30) 100) sample

abbrev pub staged_db : Database
staged_db =
    run memory
      (stage 1 7 (text " 00112233AABBCCDD")
        (text "000102030405060708090a0b0c0d0e0f101112131415161718191a1b1c1d1e1f") 200)
      requested_db

abbrev pub validating_db : Database
validating_db = run memory (validate 1 7 300) staged_db

abbrev pub grace_db : Database
grace_db = run memory (use_credential 2 400) validating_db

pub requested_db-IsSound : IsSound requested_db
requested_db-IsSound = run-IsSound memory _ sample sample-IsSound

pub staged_db-IsSound : IsSound staged_db
staged_db-IsSound = run-IsSound memory _ requested_db requested_db-IsSound

pub validating_db-IsSound : IsSound validating_db
validating_db-IsSound = run-IsSound memory _ staged_db staged_db-IsSound

pub grace_db-IsSound : IsSound grace_db
grace_db-IsSound = run-IsSound memory _ validating_db validating_db-IsSound
