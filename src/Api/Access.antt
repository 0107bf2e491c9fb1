-- ===== src/Api/Access.antt =====
-- createDevice and then ddnsUpdate: a new device can use the key that it is given.
use mathlib.Core.Option.{none-ne-some}
use olimpo.Common.{
  ℕ, ◌≡◌, refl, sym, subst, ap, inl, inr, Bool, true, false, not, ◌&&◌, ◌||◌, Option, none, some,
  List, [], ◌∷◌, ◌++◌, ◌==◌, nat_eq, text_eq, text_beq_iff, Text, arith, find, update_rows, select,
  Bool-cases,
}
use olimpo.Errors.{Error, Result, ok, err}
use olimpo.Gorm.{Gorm, In, pure, ◌>>=◌, update_where, first_or, find_rows}
use olimpo.Gorm.Rules.{AtomicOutcome}
use olimpo.Model.{Database, Device, DdnsCredential}
use olimpo.Keys.{
  GeneratedKey, generate_ddns_key, generate_key, verify_api_key, hash_api_key, ddns_key_prefix,
}
use olimpo.Text.{hex_encode}
use olimpo.Keys.Base64.{base64_encode}
use olimpo.Keys.RoundTrip.{accepts}
use olimpo.Ddns.{
  AuthContext, active_named, in_use, is_over, try_credentials, authenticate_update, use_credential,
}
use olimpo.Api.Devices.{DeviceRequest, new_device, new_credential, create_device}
use olimpo.Api.Created.{IsReliable, DeviceStored, create_device-Stores}

abbrev key_or : GeneratedKey → Result Error GeneratedKey → GeneratedKey
key_or default (ok key) = key
key_or default (err e) = default

module _ (sum256 : List ℕ → List ℕ) where
  -- A generated key is accepted against its hash.
  generate_key-accepted :
      (id_raw secret_raw : Option (List ℕ)) (key : GeneratedKey)
      → generate_ddns_key sum256 id_raw secret_raw ≡ ok key
      → verify_api_key sum256 key.plaintext key.hash ≡ true
  unfolding generate_key verify_api_key
  generate_key-accepted none secret_raw key h = absurd (ground arith)
  generate_key-accepted (some a) none key h = absurd (ground arith)
  generate_key-accepted (some a) (some b) key h =
      subst (λ k. verify_api_key sum256 k.plaintext k.hash ≡ true) (ap (key_or key) h)
        (accepts (hash_api_key sum256 (ddns_key_prefix ++ (hex_encode a ++ 46 ∷ base64_encode b))))

find-last :
    (p : Device → Bool) (xs : List Device) (x : Device)
    → find p xs ≡ none
    → p x ≡ true
    → find p (xs ++ x ∷ []) ≡ some x
unfolding find
find-last p [] x h t = rw t refl
find-last p (y ∷ ys) x h t = elim (Bool-cases (p y)) [
  | inl u ↦ absurd (none-ne-some y (sym (rw u at h)))
  | inr u ↦ rw u (find-last p ys x (rw u at h) t)
]

In-select_last :
    (p : DdnsCredential → Bool) (xs : List DdnsCredential) (c : DdnsCredential)
    → p c ≡ true
    → In c (select p (xs ++ c ∷ []))
unfolding select
In-select_last p [] c t = rw t (inl refl)
In-select_last p (x ∷ xs) c t = elim (Bool-cases (p x)) [
  | inl u ↦ rw u (inr (In-select_last p xs c t))
  | inr u ↦ rw u (In-select_last p xs c t)
]

module _ (db : Gorm) (reliable : IsReliable db) (sum256 : List ℕ → List ℕ) where
  -- The loop over the credentials stops at the first that fits.
  try_credentials_admits :
      (device : Device) (key ip : Text) (now : ℕ) (c : DdnsCredential) (cs : List DdnsCredential)
      (s : Database)
      → In c cs
      → is_over now c ≡ false
      → verify_api_key sum256 key c.secret_hash ≡ true
      → (context : AuthContext) × (t : Database) × (try_credentials db sum256 device key ip now cs s
          ≡ (ok context, t))
        × (context.device ≡ device)
  unfolding try_credentials ◌>>=◌ pure update_where
  try_credentials_admits device key ip now c [] s i fresh good = absurd i
  try_credentials_admits device key ip now c (x ∷ xs) s i fresh good =
      elim (Bool-cases (is_over now x || not (verify_api_key sum256 key x.secret_hash))) [
        | inl t ↦ rw t (try_credentials_admits device key ip now c xs s (later i t) fresh good)
        | inr t ↦ (
          record { device = device; credential = use_credential now ip x },
          record s {
            ddns_credentials =
                update_rows (λ y. y.id == x.id) (use_credential now ip) s.ddns_credentials;
          },
          rw (t, reliable.updates (λ y. y.id == x.id) (use_credential now ip) s.ddns_credentials)
              refl,
          refl,
        )
      ]
    where
      later :
          In c (x ∷ xs)
          → (is_over now x || not (verify_api_key sum256 key x.secret_hash)) ≡ true
          → In c xs
      later (inl same) t = absurd (
          ground (
            arith,
            subst (λ z. is_over now z ≡ false) (sym same) fresh,
            subst (λ z. verify_api_key sum256 key z.secret_hash ≡ true) (sym same) good,
          ))
      later (inr j) t = j

  authenticate_found :
      (username key ip : Text) (now : ℕ) (device : Device) (c : DdnsCredential) (s : Database)
      → find (active_named username) s.devices ≡ some device
      → In c (select (in_use device.id) s.ddns_credentials)
      → is_over now c ≡ false
      → verify_api_key sum256 key c.secret_hash ≡ true
      → (context : AuthContext) × (t : Database) × (authenticate_update db sum256 username key ip
            now s
          ≡ (ok context, t))
        × (context.device ≡ device)
  unfolding authenticate_update ◌>>=◌ first_or find_rows
  authenticate_found username key ip now device c s found i fresh good =
      rw
        (
          reliable.finds_first (active_named username) s.devices,
          found,
          reliable.finds_rows (in_use device.id) s.ddns_credentials,
        )
        (try_credentials_admits device key ip now c (select (in_use device.id) s.ddns_credentials) s
          i fresh good)

  -- Where no active device has the name yet and the database does not fail, a device that is created
  -- is let in by Authenticate with its name and the key that was returned, at any time and from any
  -- address.
  pub create_device-Admits :
      (request : DeviceRequest) (id_raw secret_raw : Option (List ℕ)) (now : ℕ) (s : Database)
      (device : Device) (key : GeneratedKey) (t : Database) (ip : Text) (later : ℕ)
      → find (active_named request.name) s.devices ≡ none
      → create_device db sum256 request id_raw secret_raw now s ≡ (ok (device, key), t)
      → (context : AuthContext) × (u : Database) × (authenticate_update db sum256 request.name
            key.plaintext ip later t
          ≡ (ok context, u))
        × (context.device ≡ device)
  unfolding new_device new_credential
  create_device-Admits request id_raw secret_raw now s device key t ip later fresh e =
      let made : DeviceStored sum256 request now id_raw secret_raw s (device, key) t =
        subst (AtomicOutcome (DeviceStored sum256 request now id_raw secret_raw s) (λ r. ⊥) s) e
          (create_device-Stores sum256 request now db id_raw secret_raw s).holds in
      let (m, g, d, f) = made in
      authenticate_found request.name key.plaintext ip later device
        (new_credential device.id key now m) t
        (subst (λ u. find (active_named request.name) u.devices ≡ some device) (sym f)
          (find-last (active_named request.name) s.devices device fresh
            (subst (λ x. active_named request.name x ≡ true) (sym d) named)))
        (subst
          (λ u.
            In (new_credential device.id key now m) (select (in_use device.id) u.ddns_credentials))
          (sym f)
          (In-select_last (in_use device.id) s.ddns_credentials (new_credential device.id key now m)
            used))
        refl (generate_key-accepted sum256 id_raw secret_raw key g)
    where
      named : (request.name == request.name && true) ≡ true
      named = ground (arith, (text_beq_iff request.name request.name).1 refl)

      used : (device.id == device.id && true) ≡ true
      used = ground arith
