-- ===== src/Enrollment/Exchange.antt =====
-- Exchange: what a token gives, and why it is refused.
use olimpo.Common.{
  [], ◌∷◌, ◌++◌, count, ℕ, ◌≡◌, refl, sym, ◌∙◌, ap, subst, ◌⊎◌, inl, inr, Bool, true, false, not,
  ◌||◌, Option, none, some, List, arith, Text, ◌==◌, nat_eq, nat_beq_iff, text_eq, text_beq_iff,
  find_holds, find, update_rows, Ascending, find-by_id, find-update_hit, ltb,
}
use olimpo.Errors.{EnrollmentError, enrollment, Refusal}
use olimpo.Gorm.{Gorm}
use olimpo.Gorm.Rules.{
  Ensures, Ensures-if, Ensures-pure, Ensures-refuse, Ensures-bind, Atomic-Ensures, Ensures-refusals,
  transaction-Atomic,
}
use olimpo.Gorm.Statements.{first?-Ensures, first_or-Ensures_fault, update_where-Ensures}
use olimpo.Model.{
  Database, AgentEnrollment, CredentialStatus, EnrollmentStatus, enrollment_status_eq,
  devices_table, enrollments_table,
}
use olimpo.Keys.{parse_enrollment_key_id, verify_api_key}
use olimpo.AgentAuth.{active_identity_of}
use olimpo.AgentAuth.Identity.{identity_at, OneIdentity}
use olimpo.AgentAuth.Issue.{NotIssuable, issue_credential_tx_Sound}
use olimpo.Enrollment.{ExchangeResult, enrollment_where, claim, link_identity, settle}
use olimpo.Enrollment.Grant.{
  issue_claimed, claim_token, exchange_found, exchange_tx, exchange_id, exchange,
}
use olimpo.Enrollment.Keeps.{enrollment_at}

-- The token named a pending enrollment that had not expired, and its digest is the stored one. The
-- enrollment is now issued and linked to a new active identity of its device, which had none, with
-- the identifier and the hash of the returned key.
abbrev pub Exchanged : (List ℕ → List ℕ) → Database → Text → ℕ → ExchangeResult → Database → Type 0
Exchanged sum256 s token now r s' =
    (e : AgentEnrollment) × (enrollment_at e.id s.enrollments ≡ some e)
    × (parse_enrollment_key_id token ≡ some e.token_id)
    × (e.status ≡ EnrollmentStatus.pending)
    × (verify_api_key sum256 token e.secret_hash ≡ true)
    × (ltb now e.expires_at ≡ true)
    × (r.enrollment.id ≡ e.id)
    × (r.enrollment.status ≡ EnrollmentStatus.issued)
    × (r.enrollment.agent_credential_id ≡ some r.credential.id)
    × (enrollment_at e.id s'.enrollments ≡ some r.enrollment)
    × OneIdentity s'.agent_credentials
    × (identity_at r.credential.id s'.agent_credentials ≡ some r.credential)
    × (r.credential.device_id ≡ e.device_id)
    × (r.credential.status ≡ CredentialStatus.active)
    × (r.credential.credential_id ≡ r.agent_key.id)
    × (r.credential.secret_hash ≡ r.agent_key.hash)
    × (count (active_identity_of e.device_id) s.agent_credentials ≡ 0)
    × (s'.agent_credentials ≡ s.agent_credentials ++ r.credential ∷ [])

abbrev pub NotExchanged : Database → Refusal → Type 0
NotExchanged s r = (r ≡ enrollment EnrollmentError.bad_auth) ⊎ ((d : ℕ) × NotIssuable s d r)

-- What the transaction returns, where `none` stands for a refusal after it.
abbrev Traded : (List ℕ → List ℕ) → Database → Text → ℕ → Option ExchangeResult → Database → Type 0
Traded sum256 s token now none s' = Unit
Traded sum256 s token now (some r) s' = Exchanged sum256 s token now r s'

module _ (es : List AgentEnrollment) (e : AgentEnrollment) (at : enrollment_at e.id es ≡ some e)
    (pending : e.status ≡ EnrollmentStatus.pending) (now : ℕ) (ip : Text) (i : ℕ) where
  -- The row of the token after the claim and the link.
  claimed_row :
      (es' : List AgentEnrollment)
      → es' ≡ update_rows (enrollment_where e.id EnrollmentStatus.pending) (claim now ip) es
      → enrollment_at e.id (update_rows (λ x. x.id == e.id) (link_identity i) es')
        ≡ some (link_identity i (claim now ip e))
  claimed_row es' same =
      let first : enrollment_at e.id es' ≡ some (claim now ip e) =
        subst (λ l. enrollment_at e.id l ≡ some (claim now ip e)) (sym same)
          (find-update_hit (λ x. x.id) _ (claim now ip) es (λ x. refl) e.id e at (hit e pending)) in
      find-update_hit (λ x. x.id) (λ x. x.id == e.id) (link_identity i) es' (λ x. refl) e.id
        (claim now ip e) first ((nat_beq_iff e.id e.id).1 refl)
    where
      hit :
          (e : AgentEnrollment)
          → e.status ≡ EnrollmentStatus.pending
          → enrollment_where e.id EnrollmentStatus.pending e ≡ true
      hit e h = ground (arith, enrollment_status_eq.agrees e.status EnrollmentStatus.pending)

-- What the tests on the enrollment say where they pass.
fit :
    (a : EnrollmentStatus) (b : Bool)
    → (not (a == EnrollmentStatus.pending) || not b) ≡ false
    → (a ≡ EnrollmentStatus.pending) × (b ≡ true)
fit a b h = (ground (arith, enrollment_status_eq.agrees a EnrollmentStatus.pending), ground arith)

yet : (b : Bool) → not b ≡ false → b ≡ true
yet b h = ground arith

module _ (db : Gorm) (sum256 : List ℕ → List ℕ) (s : Database)
    (asc : Ascending (λ e. e.id) s.enrollments) (v : OneIdentity s.agent_credentials)
    (token ip : Text) (a b : Option (List ℕ)) (now later : ℕ) where
  -- The database after the claim.
  abbrev after_claim : AgentEnrollment → Database
  after_claim e = record s {
    enrollments =
        update_rows (enrollment_where e.id EnrollmentStatus.pending) (claim now ip) s.enrollments;
  }

  issue_claimed-Ensures :
      (e : AgentEnrollment)
      → enrollment_at e.id s.enrollments ≡ some e
      → parse_enrollment_key_id token ≡ some e.token_id
      → e.status ≡ EnrollmentStatus.pending
      → verify_api_key sum256 token e.secret_hash ≡ true
      → ltb now e.expires_at ≡ true
      → Ensures
          (Traded sum256 s token now)
          (NotExchanged s)
          (issue_claimed db sum256 e ip a b now later)
          (after_claim e)
  unfolding issue_claimed
  issue_claimed-Ensures e at parsed pending good fresh =
      Ensures-bind _ _ _ (after_claim e)
        (Ensures-refusals _ _ (λ r h. inr (e.device_id, h))
          (issue_credential_tx_Sound db sum256 (after_claim e) v e.device_id a b later))
        λ issued u h.
          let (one, id_at, dev, active, key, hash, alone, (_, _), issued_row) = h in
          let rows = ap (λ (t : Database). t.enrollments) issued_row in
          update_where-Ensures db enrollments_table _ _ _ u (
            first_or-Ensures_fault db devices_table _ _ _ _ λ device _.
              Ensures-pure
                (some record {
                  enrollment = link_identity issued.0.id (claim now ip e);
                  device = device;
                  credential = issued.0;
                  agent_key = issued.1;
                })
                _
                (
                  e,
                  at,
                  parsed,
                  pending,
                  good,
                  fresh,
                  refl,
                  refl,
                  refl,
                  claimed_row s.enrollments e at pending now ip issued.0.id u.enrollments rows,
                  one,
                  id_at,
                  dev,
                  active,
                  key,
                  hash,
                  alone,
                  ap (λ (t : Database). t.agent_credentials) issued_row,
                ))

  claim_token-Ensures :
      (e : AgentEnrollment)
      → enrollment_at e.id s.enrollments ≡ some e
      → parse_enrollment_key_id token ≡ some e.token_id
      → e.status ≡ EnrollmentStatus.pending
      → verify_api_key sum256 token e.secret_hash ≡ true
      → ltb now e.expires_at ≡ true
      → Ensures
          (Traded sum256 s token now)
          (NotExchanged s)
          (claim_token db sum256 e ip a b now later)
          s
  unfolding claim_token
  claim_token-Ensures e at parsed pending good fresh =
      update_where-Ensures db enrollments_table _ _ _ s (
        Ensures-if _ _ _ (after_claim e) (λ _. Ensures-refuse _ _ (inl refl))
          λ _. issue_claimed-Ensures e at parsed pending good fresh)

  exchange_found-Ensures :
      (o : Option AgentEnrollment) (token_id : Text)
      → find (λ e. e.token_id == token_id) s.enrollments ≡ o
      → parse_enrollment_key_id token ≡ some token_id
      → Ensures
          (Traded sum256 s token now)
          (NotExchanged s)
          (exchange_found db sum256 o token ip a b now later)
          s
  unfolding exchange_found
  exchange_found-Ensures none token_id h parsed = Ensures-pure none s tt
  exchange_found-Ensures (some e) token_id h parsed =
      Ensures-if _ _ _ s (λ _. Ensures-pure none s tt)
        λ t.
          let (pending, good) = fit e.status _ t in
          Ensures-if _ _ _ s
            (λ _. update_where-Ensures db enrollments_table _ _ _ s (Ensures-pure none _ tt))
            λ u.
              claim_token-Ensures e (find-by_id (λ x. x.id) _ s.enrollments e asc h)
                (parsed ∙ ap some (sym (named token_id e h))) pending good (yet _ u)
    where
      named :
          (token_id : Text) (e : AgentEnrollment)
          → find (λ x. x.token_id == token_id) s.enrollments ≡ some e
          → e.token_id ≡ token_id
      named token_id e h = (text_beq_iff e.token_id token_id).0 (find_holds _ s.enrollments e h)

  settle-Ensures :
      (o : Option ExchangeResult) (t : Database)
      → Traded sum256 s token now o t
      → Ensures (Exchanged sum256 s token now) (NotExchanged s) (settle o) t
  settle-Ensures none t h = Ensures-refuse _ t (inl refl)
  settle-Ensures (some r) t h = Ensures-pure r t h

  exchange_id-Ensures :
      (o : Option Text)
      → parse_enrollment_key_id token ≡ o
      → Ensures
          (Exchanged sum256 s token now)
          (NotExchanged s)
          (exchange_id db sum256 o token ip a b now later)
          s
  unfolding exchange_id exchange_tx
  exchange_id-Ensures none parsed = Ensures-refuse _ s (inl refl)
  exchange_id-Ensures (some token_id) parsed =
      Ensures-bind _ _ _ s
        (Atomic-Ensures _ s (
          transaction-Atomic db _ s (
            first?-Ensures db enrollments_table _ _ s
              (exchange_found-Ensures _ token_id refl parsed))))
        λ o t h. settle-Ensures o t h

  -- From tables with rising keys and one active identity for each device, an exchange that succeeds
  -- was made with the token of a pending enrollment before its deadline, whose hash is the stored
  -- one. It leaves that enrollment issued and linked to a new active identity of its device, which
  -- had none before and has just that one now, with the identifier and the hash of the returned key;
  -- the identities before it stay. A refusal is a bad authentication, or says that the device is not an
  -- active one or has an identity.
  pub exchange_Sound :
      Ensures
        (Exchanged sum256 s token now)
        (NotExchanged s)
        (exchange db sum256 token ip a b now later)
        s
  unfolding exchange
  exchange_Sound = exchange_id-Ensures _ refl
