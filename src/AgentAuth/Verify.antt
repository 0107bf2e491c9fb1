-- ===== src/AgentAuth/Verify.antt =====
-- Authenticate: what a caller that is let in has shown.
use olimpo.Common.{
  ℕ, ◌≡◌, refl, Bool, true, false, not, Option, none, some, List, Text, ◌==◌, nat_eq, find,
  update_rows, arith,
}
use olimpo.Errors.{AgentAuthError, agent_auth, Refusal}
use olimpo.Gorm.{Gorm}
use olimpo.Gorm.Queries.{first-Atomic, update_pure-Atomic}
use olimpo.Gorm.Rules.{Atomic, Atomic-if, Atomic-refuse}
use olimpo.Model.{Database, DeviceIdentityCredential, devices_table, agent_credentials_table}
use olimpo.Keys.{parse_agent_key_id, verify_api_key}
use olimpo.Credential.Base.{active_device}
use olimpo.AgentAuth.{
  Context, active_identity, is_expired, use_identity, authenticate_id, authenticate,
}

abbrev pub bad_auth : Refusal
bad_auth = agent_auth AgentAuthError.bad_auth

-- The key names an active credential that has not expired, its digest is the stored one, the device
-- is active, and the only change is the note of this use.
abbrev pub Admitted : (List ℕ → List ℕ) → Database → Text → Text → ℕ → Context → Database → Type 0
Admitted sum256 s api_key ip now context s' =
    (id : Text) × (c : DeviceIdentityCredential) × (parse_agent_key_id api_key ≡ some id)
    × (find (active_identity id) s.agent_credentials ≡ some c)
    × (is_expired c.expires_at now ≡ false)
    × (verify_api_key sum256 api_key c.secret_hash ≡ true)
    × (find (active_device c.device_id) s.devices ≡ some context.device)
    × (context.credential ≡ use_identity now ip c)
    × (s' ≡ record s {
      agent_credentials = update_rows (λ x. x.id == c.id) (use_identity now ip) s.agent_credentials;
    })

accepted : (b : Bool) → not b ≡ false → b ≡ true
accepted b h = ground arith

module _ (db : Gorm) (sum256 : List ℕ → List ℕ) (s : Database) (api_key caller_ip : Text)
    (now : ℕ) where
  authenticate_id-Atomic :
      (o : Option Text)
      → parse_agent_key_id api_key ≡ o
      → Atomic
          (Admitted sum256 s api_key caller_ip now)
          (λ e. e ≡ bad_auth)
          (authenticate_id db sum256 o api_key caller_ip now)
          s
  unfolding authenticate_id
  authenticate_id-Atomic none e = Atomic-refuse _ s refl
  authenticate_id-Atomic (some id) e =
      first-Atomic db bad_auth _ agent_credentials_table _ _ s refl λ c h.
        Atomic-if _ _ _ s (λ _. Atomic-refuse _ s refl)
          λ fresh.
            Atomic-if _ _ _ s (λ _. Atomic-refuse _ s refl)
              λ good. first-Atomic db bad_auth _ devices_table _ _ s refl λ device present.
                update_pure-Atomic db agent_credentials_table _ _ _ s
                  (id, c, e, h, fresh, accepted _ good, present, refl, refl)

  -- A caller is let in only with a key of an active credential that has not expired, whose hash is
  -- the stored one and whose device is active, and then only the use is noted. Every refusal is the
  -- same bad authentication. Where the caller is not let in, the database is as before.
  pub authenticate_Sound :
      Atomic
        (Admitted sum256 s api_key caller_ip now)
        (λ e. e ≡ bad_auth)
        (authenticate db sum256 api_key caller_ip now)
        s
  unfolding authenticate
  authenticate_Sound = authenticate_id-Atomic (parse_agent_key_id api_key) refl
