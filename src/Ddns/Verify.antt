-- ===== src/Ddns/Verify.antt =====
-- Authenticate: what a caller that is let in has shown.
use olimpo.Common.{
  ℕ, ◌≡◌, refl, subst, inl, inr, Bool, true, false, not, ◌||◌, some, List, [], ◌∷◌, Text, arith,
  ◌==◌, nat_eq, find, if◌then◌else◌, update_rows, select,
}
use olimpo.Gorm.{Gorm, In}
use olimpo.Gorm.Rules.{Atomic, Atomic-if, Atomic-refuse}
use olimpo.Gorm.Queries.{first-Atomic, rows-Atomic, update_pure-Atomic}
use olimpo.Model.{Database, Device, DdnsCredential, devices_table, ddns_credentials_table}
use olimpo.Keys.{verify_api_key}
use olimpo.Ddns.{
  AuthContext, ddns_bad_auth, active_named, in_use, is_over, use_credential, try_credentials,
  authenticate_update,
}

In-select :
    (p : DdnsCredential → Bool) (xs : List DdnsCredential) (x : DdnsCredential)
    → In x (select p xs)
    → In x xs × (p x ≡ true)
unfolding select
In-select p [] x h = absurd h
In-select p (y ∷ ys) x h = go (p y) refl h (λ i. In-select p ys x i)
  where
    go :
        (b : Bool)
        → p y ≡ b
        → In x (if b then y ∷ select p ys else select p ys)
        → (In x (select p ys) → In x ys × (p x ≡ true))
        → In x (y ∷ ys) × (p x ≡ true)
    go true e (inl same) ih = (inl same, subst (λ z. p z ≡ true) same e)
    go true e (inr i) ih = (inr (ih i).0, (ih i).1)
    go false e i ih = (inr (ih i).0, (ih i).1)

-- The user is an active device, the key's digest is that of one of its credentials that is active, or
-- in grace and not past it, and has not expired. The only change is the note of this use.
abbrev pub UpdaterAdmitted :
    (List ℕ → List ℕ) → Database → Text → Text → Text → ℕ → AuthContext → Database → Type 0
UpdaterAdmitted sum256 s username api_key ip now context s' =
    (c : DdnsCredential) × (find (active_named username) s.devices ≡ some context.device)
    × In c s.ddns_credentials
    × (in_use context.device.id c ≡ true)
    × (is_over now c ≡ false)
    × (verify_api_key sum256 api_key c.secret_hash ≡ true)
    × (context.credential ≡ use_credential now ip c)
    × (s' ≡ record s {
      ddns_credentials = update_rows (λ x. x.id == c.id) (use_credential now ip) s.ddns_credentials;
    })

fits : (a b : Bool) → (a || not b) ≡ false → (a ≡ false) × (b ≡ true)
fits a b h = (ground arith, ground arith)

module _ (db : Gorm) (sum256 : List ℕ → List ℕ) (s : Database) (username api_key ip : Text)
    (now : ℕ) where
  try_credentials-Atomic :
      (device : Device) (cs : List DdnsCredential)
      → find (active_named username) s.devices ≡ some device
      → ((c : DdnsCredential) → In c cs → In c s.ddns_credentials × (in_use device.id c ≡ true))
      → Atomic
          (UpdaterAdmitted sum256 s username api_key ip now)
          (λ e. e ≡ ddns_bad_auth)
          (try_credentials db sum256 device api_key ip now cs)
          s
  unfolding try_credentials
  try_credentials-Atomic device [] present known = Atomic-refuse _ s refl
  try_credentials-Atomic device (c ∷ cs) present known =
      Atomic-if _ _ _ s (λ _. try_credentials-Atomic device cs present (λ x i. known x (inr i)))
        λ t.
          let (fresh, good) = fits (is_over now c) _ t in
          let (stored, used) = known c (inl refl) in
          update_pure-Atomic db ddns_credentials_table _ _ _ s
            (c, present, stored, used, fresh, good, refl, refl)

  -- A caller is let in only as an active device, with a key whose hash is that of one of the device's
  -- credentials that has not expired and is active or in a grace period that is not over, and then
  -- only the use is noted. Every refusal is the same bad authentication. Where the caller is not let
  -- in, the database is as before.
  pub authenticate_update_Sound :
      Atomic
        (UpdaterAdmitted sum256 s username api_key ip now)
        (λ e. e ≡ ddns_bad_auth)
        (authenticate_update db sum256 username api_key ip now)
        s
  unfolding authenticate_update
  authenticate_update_Sound =
      first-Atomic db ddns_bad_auth _ devices_table _ _ s refl λ device present.
        rows-Atomic db ddns_bad_auth ddns_credentials_table _ _ s refl (
          try_credentials-Atomic device (select (in_use device.id) s.ddns_credentials) present
            (λ c i. In-select (in_use device.id) s.ddns_credentials c i))
