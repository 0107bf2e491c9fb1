-- ===== src/Api/Created.antt =====
-- What createDevice does, on every branch.
use olimpo.Common.{
  ℕ, ◌≡◌, refl, Bool, Option, none, some, List, [], ◌∷◌, ◌++◌, nat_eq, text_eq, arith, find,
  update_rows, count, select,
}
use olimpo.Errors.{Error, refused, Refusal, database, entropy, Result, ok, err}
use olimpo.Gorm.{Gorm, or_not_found, pure, ◌>>=◌, proceed}
use olimpo.Gorm.Rules.{Ensures, Ensures-pure, Atomic, AtomicOutcome, transaction-Atomic}
use olimpo.Gorm.Statements.{create_row-Ensures}
use olimpo.Gorm.Outcomes.{Atomic-map, Atomic-weaken}
use olimpo.Model.{
  Database, Device, DdnsCredential, DeviceStatus, CredentialStatus, devices_table,
  ddns_credentials_table,
}
use olimpo.Keys.{GeneratedKey, generate_ddns_key, generate_key}
use olimpo.Api.Devices.{DeviceRequest, new_device, new_credential, store_device, create_device}

-- A database whose statements do not fail.
pub record IsReliable (db : Gorm) : Type 1 where
  pub finds_first :
      {Row : Type 0} (p : Row → Bool) (t : List Row) → db.first p t ≡ or_not_found (find p t)
  pub finds_rows : {Row : Type 0} (p : Row → Bool) (t : List Row) → db.rows p t ≡ ok (select p t)
  pub updates :
      {Row : Type 0} (p : Row → Bool) (f : Row → Row) (t : List Row)
      → db.update p f t ≡ ok (update_rows p f t, count p t)

module _ (sum256 : List ℕ → List ℕ) (request : DeviceRequest) (now : ℕ) where
  -- The device and its one credential are the last rows.
  abbrev pub DeviceStored :
      Option (List ℕ) → Option (List ℕ) → Database → Device × GeneratedKey → Database → Type 0
  DeviceStored id_raw secret_raw s (device, key) t =
      (m : ℕ) × (generate_ddns_key sum256 id_raw secret_raw ≡ ok key)
      × (device ≡ new_device request device.id)
      × (t ≡ record s {
        devices = s.devices ++ device ∷ [];
        ddns_credentials = s.ddns_credentials ++ new_credential device.id key now m ∷ [];
      })

  store_device-Ensures :
      (db : Gorm) (key : GeneratedKey) (s : Database)
      → Ensures
          (λ device t.
            (m : ℕ) × (device ≡ new_device request device.id)
            × (t ≡ record s {
              devices = s.devices ++ device ∷ [];
              ddns_credentials = s.ddns_credentials ++ new_credential device.id key now m ∷ [];
            }))
          (λ r. ⊥)
          (store_device db request key now)
          s
  unfolding store_device
  store_device-Ensures db key s = create_row-Ensures db devices_table _ _ s λ n at pos above.
      create_row-Ensures db ddns_credentials_table _ _ _
        λ m at' pos' above'. Ensures-pure _ _ (m, refl, refl)

  -- The random source is all that can fail.
  generate_key-decides :
      (id_raw secret_raw : Option (List ℕ)) (r : Refusal)
      → ¬ (generate_ddns_key sum256 id_raw secret_raw ≡ err (refused r))
  unfolding generate_key
  generate_key-decides none secret_raw r h = absurd (ground arith)
  generate_key-decides (some a) none r h = absurd (ground arith)
  generate_key-decides (some a) (some b) r h = absurd (ground arith)

  pub create_device-Stores :
      (db : Gorm) (id_raw secret_raw : Option (List ℕ)) (s : Database)
      → Atomic
          (DeviceStored id_raw secret_raw s)
          (λ r. ⊥)
          (create_device db sum256 request id_raw secret_raw now)
          s
  unfolding create_device ◌>>=◌
  create_device-Stores db id_raw secret_raw s = record {
    holds = go (generate_ddns_key sum256 id_raw secret_raw) refl;
  }
    where
      go :
          (o : Result Error GeneratedKey)
          → generate_ddns_key sum256 id_raw secret_raw ≡ o
          → AtomicOutcome
              (DeviceStored id_raw secret_raw s)
              (λ r. ⊥)
              s
              (proceed
                (λ key.
                  db.transaction (store_device db request key now) >>= λ device. pure (device, key))
                (o, s))
      go (ok key) e =
          (Atomic-map (db.transaction (store_device db request key now)) (λ device. (device, key)) s
            (λ device t (m, d, u). (m, e, d, u))
            (transaction-Atomic db (store_device db request key now) s
              (store_device-Ensures db key s))).holds
      go (err (refused r)) e = absurd (generate_key-decides id_raw secret_raw r e)
      go (err (database d)) e = refl
      go (err entropy) e = refl

  -- The device is active, as requested and never seen.
  abbrev pub IsNewDevice : Device → Type 0
  IsNewDevice d =
      (d.status ≡ DeviceStatus.active)
      × (d.name ≡ request.name)
      × (d.display_name ≡ request.display_name)
      × (d.kind ≡ request.kind)
      × (d.last_seen_at ≡ none)

  -- The credential is active and the device's, has the identifier and the hash of the key, and has no
  -- end.
  abbrev pub IsNewCredential : Device → GeneratedKey → DdnsCredential → Type 0
  IsNewCredential d key c =
      (c.status ≡ CredentialStatus.active)
      × (c.device_id ≡ d.id)
      × (c.key_id ≡ key.id)
      × (c.secret_hash ≡ key.hash)
      × (c.activated_at ≡ some now)
      × (c.expires_at ≡ none)
      × (c.revoked_at ≡ none)
      × (c.grace_until ≡ none)

  -- The device and its one credential, of the key that is returned, are the last rows.
  abbrev pub DeviceCreated :
      Option (List ℕ) → Option (List ℕ) → Database → Device × GeneratedKey → Database → Type 0
  DeviceCreated id_raw secret_raw s (device, key) t =
      (c : DdnsCredential) × (generate_ddns_key sum256 id_raw secret_raw ≡ ok key)
      × IsNewDevice device
      × IsNewCredential device key c
      × (t ≡ record s {
        devices = s.devices ++ device ∷ [];
        ddns_credentials = s.ddns_credentials ++ c ∷ [];
      })

  stored-created :
      (id_raw secret_raw : Option (List ℕ)) (s : Database) (a : Device × GeneratedKey)
      (t : Database)
      → DeviceStored id_raw secret_raw s a t
      → DeviceCreated id_raw secret_raw s a t
  unfolding new_device new_credential
  stored-created id_raw secret_raw s (device, key) t (m, made, same, rows) = (
    new_credential device.id key now m,
    made,
    rw same (refl, refl, refl, refl, refl),
    (refl, refl, refl, refl, refl, refl, refl, refl),
    rows,
  )

  -- A device that is created is active, as requested and never seen; it gets one credential, which is
  -- active from now on without an end, with the identifier and the hash of the returned key; nothing
  -- else changes. Otherwise nothing is changed and nothing is refused: only the database or the random
  -- source can fail.
  pub create_device_Sound :
      (db : Gorm) (id_raw secret_raw : Option (List ℕ)) (s : Database)
      → Atomic
          (DeviceCreated id_raw secret_raw s)
          (λ r. ⊥)
          (create_device db sum256 request id_raw secret_raw now)
          s
  create_device_Sound db id_raw secret_raw s =
      Atomic-weaken _ s (stored-created id_raw secret_raw s)
        (create_device-Stores db id_raw secret_raw s)
