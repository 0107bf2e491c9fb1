-- ===== src/AgentAuth/Identity.antt =====
-- The invariant of the agent credentials: keys rise, and a device has at most one active credential.
use olimpo.Common.{
  ℕ, ◌<◌, ◌≡◌, ◌≢◌, refl, sym, ◌∙◌, ap, inl, inr, Bool, true, false, Option, some, List, [], ◌∷◌,
  ◌++◌, arith, nat_eq, nat_beq_iff, find, update_rows, by_id, Ascending, count, All, Bool-cases,
  find_holds, find-count_zero, find-update_inv, update_rows-Ascending, append-Ascending,
  find-append_inv, find-append,
}
use olimpo.Model.{DeviceIdentityCredential, CredentialStatus, credential_status_eq}
use olimpo.AgentAuth.{active_identity_of}

abbrev pub identity_at : ℕ → List DeviceIdentityCredential → Option DeviceIdentityCredential
identity_at i = find (by_id (λ c. c.id) i)

pub record OneIdentity (cs : List DeviceIdentityCredential) : Type 0 where
  pub ascending : Ascending (λ c. c.id) cs
  pub one_active :
      (i j : ℕ) (c k : DeviceIdentityCredential)
      → identity_at i cs ≡ some c
      → identity_at j cs ≡ some k
      → c.status ≡ CredentialStatus.active
      → k.status ≡ CredentialStatus.active
      → c.device_id ≡ k.device_id
      → i ≡ j

pub active_identity_of_holds :
    (d : ℕ) (c : DeviceIdentityCredential)
    → c.device_id ≡ d
    → c.status ≡ CredentialStatus.active
    → active_identity_of d c ≡ true
active_identity_of_holds d c e h =
    ground (arith, credential_status_eq.agrees c.status CredentialStatus.active)

-- A new active credential of a device that has none.
module _ (cs : List DeviceIdentityCredential) (v : OneIdentity cs) (c : DeviceIdentityCredential)
    (above : All (λ x. x.id < c.id) cs)
    (alone : count (active_identity_of c.device_id) cs ≡ 0) where
  pub identity_new : identity_at c.id (cs ++ c ∷ []) ≡ some c
  identity_new = find-append (λ x. x.id) c.id cs c above ∙ rw ((nat_beq_iff c.id c.id).1 refl) refl

  key_of :
      (i : ℕ) (k : DeviceIdentityCredential) (xs : List DeviceIdentityCredential)
      → identity_at i xs ≡ some k
      → k.id ≡ i
  key_of i k xs h = (nat_beq_iff k.id i).0 (find_holds (by_id (λ x. x.id) i) xs k h)

  not_active :
      (i : ℕ) (k : DeviceIdentityCredential)
      → identity_at i cs ≡ some k
      → k.status ≡ CredentialStatus.active
      → k.device_id ≢ c.device_id
  not_active i k h st same =
      let t : active_identity_of c.device_id k ≡ true =
        active_identity_of_holds c.device_id k same st in
      let f : active_identity_of c.device_id k ≡ false = find-count_zero _ _ cs k alone h in
      ground arith

  pub append-OneIdentity : OneIdentity (cs ++ c ∷ [])
  append-OneIdentity = record {
    ascending = append-Ascending (λ x. x.id) cs c v.ascending above;
    one_active = λ i j x y hx hy sx sy same. elim (find-append_inv (λ z. z.id) i cs c x hx) [
      | inl ex ↦ elim (find-append_inv (λ z. z.id) j cs c y hy) [
        | inl ey ↦
            sym (key_of i x _ hx)
            ∙ ap (λ (z : DeviceIdentityCredential). z.id) (ex ∙ sym ey)
            ∙ key_of j y _ hy
        | inr oy ↦ absurd (
            not_active j y oy sy (sym same ∙ ap (λ (z : DeviceIdentityCredential). z.device_id) ex))
      ]
      | inr ox ↦ elim (find-append_inv (λ z. z.id) j cs c y hy) [
        | inl ey ↦
            absurd
              (not_active i x ox sx (same ∙ ap (λ (z : DeviceIdentityCredential). z.device_id) ey))
        | inr oy ↦ v.one_active i j x y ox oy sx sy same
      ]
    ];
  }

-- An update that makes no credential active and moves none to another device.
module _ (cs : List DeviceIdentityCredential) (v : OneIdentity cs)
    (p : DeviceIdentityCredential → Bool) (f : DeviceIdentityCredential → DeviceIdentityCredential)
    (same_id : (c : DeviceIdentityCredential) → (f c).id ≡ c.id)
    (same_device : (c : DeviceIdentityCredential) → (f c).device_id ≡ c.device_id)
    (was_active : (c : DeviceIdentityCredential)
      → (f c).status ≡ CredentialStatus.active
      → c.status ≡ CredentialStatus.active) where
  before :
      (i : ℕ) (y : DeviceIdentityCredential)
      → identity_at i (update_rows p f cs) ≡ some y
      → y.status ≡ CredentialStatus.active
      → (x : DeviceIdentityCredential) × (identity_at i cs ≡ some x)
        × (x.status ≡ CredentialStatus.active)
        × (y.device_id ≡ x.device_id)
  before i y h st =
      let (x, e, own) = find-update_inv (λ c. c.id) p f cs same_id i y h in
      elim (Bool-cases (p x)) [
        | inl t ↦
            let here : y ≡ f x = own ∙ rw t refl in
            (
              x,
              e,
              was_active x (sym (ap (λ (z : DeviceIdentityCredential). z.status) here) ∙ st),
              ap (λ (z : DeviceIdentityCredential). z.device_id) here ∙ same_device x,
            )
        | inr t ↦
            let here : y ≡ x = own ∙ rw t refl in
            (
              x,
              e,
              sym (ap (λ (z : DeviceIdentityCredential). z.status) here) ∙ st,
              ap (λ (z : DeviceIdentityCredential). z.device_id) here,
            )
      ]

  pub update-OneIdentity : OneIdentity (update_rows p f cs)
  update-OneIdentity = record {
    ascending = update_rows-Ascending (λ c. c.id) p f cs same_id v.ascending;
    one_active = λ i j x y hx hy sx sy same.
        let (a, ea, sa, da) = before i x hx sx in
        let (b, eb, sb, db) = before j y hy sy in
        v.one_active i j a b ea eb sa sb (sym da ∙ same ∙ db);
  }
