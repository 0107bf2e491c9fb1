-- ===== src/Credential/Changes.antt =====
-- What an update of one credential does to the table, in the terms of the invariant.
use mathlib.Core.Option.{some-injective}
use olimpo.Common.{
  refl, Bool, ◌++◌, [], ◌∷◌, All, find-append_old, find-append, nat_beq_iff, subst, sym, ap, ◌∙◌, ℕ,
  ◌<◌, ◌≡◌, ◌≢◌, inl, inr, true, some, List, arith, nat_eq, nat_beq, Bool-cases, find, update_rows,
  count, Ascending, find_holds, count-by_id, find-by_id, find-count_pos, find-update_hit,
  find-update_miss, update_rows-Ascending,
}
use olimpo.Model.{
  Database, DdnsCredentialRotation, DdnsCredential, CredentialStatus, credential_status_eq,
}
use olimpo.Credential.Base.{confirm, credential_where}
use olimpo.Credential.Invariant.{IsSound, rotation_at, moved, credential_at, HasCredential, Frame}

pub credential_where_holds :
    (i d : ℕ) (status : CredentialStatus) (c : DdnsCredential)
    → credential_where i d status c ≡ true
    → (c.id ≡ i) × (c.device_id ≡ d) × (c.status ≡ status)
credential_where_holds i d status c h = ground (arith, credential_status_eq.agrees c.status status)

-- The table after an update of the credential of a key, a device and a status.
abbrev pub changed :
    List DdnsCredential
    → ℕ
    → ℕ
    → CredentialStatus
    → (DdnsCredential → DdnsCredential)
    → List DdnsCredential
changed cs i d status f = update_rows (credential_where i d status) f cs

module _ (cs : List DdnsCredential) (i d : ℕ) (status : CredentialStatus)
    (f : DdnsCredential → DdnsCredential) (same_id : (c : DdnsCredential) → (f c).id ≡ c.id) where
  pub changed-Ascending : Ascending (λ c. c.id) cs → Ascending (λ c. c.id) (changed cs i d status f)
  changed-Ascending = update_rows-Ascending (λ c. c.id) _ f cs same_id

  pub changed-Frame : Frame d cs (changed cs i d status f)
  changed-Frame j e other ne (c, at, dev, st) = elim (Bool-cases (credential_where i d status c)) [
    | inl t ↦ absurd (ne (sym dev ∙ (credential_where_holds i d status c t).1))
    | inr t ↦ (c, find-update_miss (λ c. c.id) _ f cs same_id j c at t, dev, st)
  ]

  -- A credential of another key stays.
  pub changed_other :
      (j e : ℕ) (other : CredentialStatus)
      → j ≢ i
      → HasCredential cs j e other
      → HasCredential (changed cs i d status f) j e other
  changed_other j e other ne (c, at, dev, st) = elim (Bool-cases (credential_where i d status c)) [
    | inl t ↦
        let own : nat_beq c.id j ≡ true = find_holds _ cs c at in
        absurd (ne (ground (arith, credential_where_holds i d status c t)))
    | inr t ↦ (c, find-update_miss (λ c. c.id) _ f cs same_id j c at t, dev, st)
  ]

  -- Where a row was affected, it is the credential of that key, and it is now changed.
  pub changed_hit :
      Ascending (λ c. c.id) cs
      → 0 < count (credential_where i d status) cs
      → (c : DdnsCredential) × (credential_at i cs ≡ some c)
        × (c.device_id ≡ d)
        × (c.status ≡ status)
        × (credential_at i (changed cs i d status f) ≡ some (f c))
  changed_hit asc pos =
      let (c, e) = find-count_pos (credential_where i d status) cs pos in
      let t : credential_where i d status c ≡ true = find_holds _ cs c e in
      let (own, dev, st) = credential_where_holds i d status c t in
      let at : credential_at i cs ≡ some c = rw own at (find-by_id (λ c. c.id) _ cs c asc e) in
      (c, at, dev, st, find-update_hit (λ c. c.id) _ f cs same_id i c at t)

-- The update of a credential that has the status affects one row.
pub count-credential_where :
    (cs : List DdnsCredential) (i d : ℕ) (status : CredentialStatus)
    → Ascending (λ c. c.id) cs
    → HasCredential cs i d status
    → count (credential_where i d status) cs ≡ 1
count-credential_where cs i d status asc (c, at, dev, st) =
    let own : nat_beq c.id i ≡ true = find_holds _ cs c at in
    count-by_id (λ c. c.id) (credential_where i d status) i cs c
      (λ y t. (credential_where_holds i d status y t).0) asc at
      (ground (arith, credential_status_eq.agrees c.status status))

-- So does the selection of it.
pub find-credential_where :
    (cs : List DdnsCredential) (i d : ℕ) (status : CredentialStatus)
    → Ascending (λ c. c.id) cs
    → HasCredential cs i d status
    → (c : DdnsCredential) × (find (credential_where i d status) cs ≡ some c) × (c.id ≡ i)
find-credential_where cs i d status asc h =
    let (c, e) =
      find-count_pos (credential_where i d status) cs
        (omega (arith, count-credential_where cs i d status asc h)) in
    (c, e, (credential_where_holds i d status c (find_holds _ cs c e)).0)

-- Credentials of different statuses are different.
pub HasCredential-ne :
    (cs : List DdnsCredential) (i j d e : ℕ) (a b : CredentialStatus)
    → a ≢ b
    → HasCredential cs i d a
    → HasCredential cs j e b
    → i ≢ j
HasCredential-ne cs i j d e a b ne (c, c_at, _, c_st) (k, k_at, _, k_st) same =
    let here : c ≡ k = some-injective c k (sym c_at ∙ rw same k_at) in
    ne (sym c_st ∙ ap (λ (x : DdnsCredential). x.status) here ∙ k_st)

pub HasCredential-count :
    (cs : List DdnsCredential) (i d : ℕ) (status : CredentialStatus)
    → Ascending (λ c. c.id) cs
    → HasCredential cs i d status
    → 0 < count (credential_where i d status) cs
HasCredential-count cs i d status asc h = omega (arith, count-credential_where cs i d status asc h)

-- `RowsAffected` is 1, for a device that the rotation names.
pub affects_one :
    (s : Database) (v : IsSound s) (i d e : ℕ) (status : CredentialStatus)
    → d ≡ e
    → HasCredential s.ddns_credentials i d status
    → count (credential_where i e status) s.ddns_credentials ≡ 1
affects_one s v i d e status same h =
    count-credential_where s.ddns_credentials i e status v.credentials_ascending
      (subst (λ x. HasCredential s.ddns_credentials i x status) same h)

-- The moved rotation, read again.
pub moved_at :
    (s : Database) (r : DdnsCredentialRotation)
    (f : DdnsCredentialRotation → DdnsCredentialRotation) (x : DdnsCredentialRotation)
    → rotation_at r.id s.rotations ≡ some r
    → ((y : DdnsCredentialRotation) → (f y).id ≡ y.id)
    → rotation_at r.id (moved s r f) ≡ some x
    → x ≡ f r
moved_at s r f x at keeps h =
    some-injective x (f r)
      (sym h ∙ find-update_hit (λ y. y.id) _ f s.rotations keeps r.id r at (ground arith))

-- A confirmation changes no status.
pub confirm_keeps :
    (p : DdnsCredential → Bool) (now : ℕ) (cs : List DdnsCredential) (i d : ℕ)
    (status : CredentialStatus)
    → HasCredential cs i d status
    → HasCredential (update_rows p (confirm now) cs) i d status
confirm_keeps p now cs i d status (c, at, dev, st) = elim (Bool-cases (p c)) [
  | inl t ↦
      (confirm now c, find-update_hit (λ c. c.id) p (confirm now) cs (λ c. refl) i c at t, dev, st)
  | inr t ↦ (c, find-update_miss (λ c. c.id) p (confirm now) cs (λ c. refl) i c at t, dev, st)
]

-- An insertion changes no credential that is there.
pub append_keeps :
    (cs : List DdnsCredential) (new : DdnsCredential) (i d : ℕ) (status : CredentialStatus)
    → HasCredential cs i d status
    → HasCredential (cs ++ new ∷ []) i d status
append_keeps cs new i d status (c, at, dev, st) =
    (c, find-append_old (λ c. c.id) i cs new c at, dev, st)

pub append_new :
    (cs : List DdnsCredential) (new : DdnsCredential)
    → All (λ c. c.id < new.id) cs
    → credential_at new.id (cs ++ new ∷ []) ≡ some new
append_new cs new above =
    find-append (λ c. c.id) new.id cs new above ∙ rw ((nat_beq_iff new.id new.id).1 refl) refl

-- The moved rotation, under its key.
pub at_moved :
    (s : Database) (r : DdnsCredentialRotation)
    (f : DdnsCredentialRotation → DdnsCredentialRotation) (i : ℕ)
    → r.id ≡ i
    → rotation_at r.id s.rotations ≡ some r
    → ((y : DdnsCredentialRotation) → (f y).id ≡ y.id)
    → rotation_at i (moved s r f) ≡ some (f r)
at_moved s r f i own at keeps =
    subst (λ j. rotation_at j (moved s r f) ≡ some (f r)) own
      (find-update_hit (λ y. y.id) _ f s.rotations keeps r.id r at (ground arith))
