-- ===== src/Enrollment/Grant.antt =====
-- Create and Exchange of service.go: tokens, and the identities that they are traded for.
use olimpo.Common.{
  ℕ, not, ◌&&◌, ◌||◌, Option, none, some, List, [], ltb, ◌==◌, nat_eq, text_eq, Text, if◌then◌else◌,
  ℤ, ltb_ℤ,
}
use olimpo.Errors.{
  EnrollmentError, enrollment_in_progress, invalid_ttl, active_credential_exists, enrollment,
  agent_auth, refused, database, record_not_found,
}
use olimpo.Gorm.{
  Gorm, Exec, pure, refuse, ◌>>=◌, ◌>>◌, lift, first_or, first?, count_rows, update_where,
  create_row,
}
use olimpo.Model.{
  Database, AgentEnrollment, EnrollmentStatus, credential_status_eq, enrollment_status_eq,
  devices_table, agent_credentials_table, enrollments_table,
}
use olimpo.Keys.{GeneratedKey, generate_enrollment_key, parse_enrollment_key_id, verify_api_key}
use olimpo.Credential.Base.{active_device, add_minutes}
use olimpo.AgentAuth.{active_identity_of, issue_credential_tx}
use olimpo.Enrollment.{
  min_ttl_minutes, max_ttl_minutes, ExchangeResult, is_open_enrollment, enrollment_where, expire,
  claim, link_identity, settle, expire_pending,
}

module _ (db : Gorm) (sum256 : List ℕ → List ℕ) where
  unfoldable pub create_tx :
      ℕ → ℤ → Option (List ℕ) → Option (List ℕ) → ℕ → Exec Database (AgentEnrollment × GeneratedKey)
  unfolding expire_pending
  create_tx device_id ttl_minutes id_raw secret_raw now = do
    expire_pending db device_id now
    first_or db devices_table (refused (enrollment EnrollmentError.device_not_found))
        (active_device device_id)
    open_count ←
        count_rows db enrollments_table
          (λ e. e.device_id == device_id && is_open_enrollment e.status)
    if not (open_count == 0) then refuse (enrollment enrollment_in_progress) else do
      active ← count_rows db agent_credentials_table (active_identity_of device_id)
      if not (active == 0) then refuse (agent_auth active_credential_exists) else do
        key ← lift (generate_enrollment_key sum256 id_raw secret_raw)
        e ← create_row db enrollments_table (λ id at. record {
          id = id;
          created_at = at;
          device_id = device_id;
          token_id = key.id;
          secret_hash = key.hash;
          status = EnrollmentStatus.pending;
          expires_at = add_minutes now ttl_minutes;
          issued_at = none;
          completed_at = none;
          revoked_at = none;
          used_ip = [];
          agent_credential_id = none;
        })
        pure (e, key)

  -- Create
  unfoldable pub create_token :
      ℕ → ℤ → Option (List ℕ) → Option (List ℕ) → ℕ → Exec Database (AgentEnrollment × GeneratedKey)
  create_token device_id ttl_minutes id_raw secret_raw now =
      if ltb_ℤ ttl_minutes min_ttl_minutes || ltb_ℤ max_ttl_minutes ttl_minutes
      then refuse (enrollment invalid_ttl)
      else db.transaction (create_tx device_id ttl_minutes id_raw secret_raw now)

  -- The issue of the identity for a claimed token, which reads the time again.
  unfoldable pub issue_claimed :
      AgentEnrollment
      → Text
      → Option (List ℕ)
      → Option (List ℕ)
      → ℕ
      → ℕ
      → Exec Database (Option ExchangeResult)
  issue_claimed e caller_ip id_raw secret_raw now later = do
    issued ← issue_credential_tx db sum256 e.device_id id_raw secret_raw later
    update_where db enrollments_table (λ x. x.id == e.id) (link_identity issued.0.id)
    device ← first_or db devices_table (database record_not_found) (λ d. d.id == e.device_id)
    pure (
        some record {
          enrollment = link_identity issued.0.id (claim now caller_ip e);
          device = device;
          credential = issued.0;
          agent_key = issued.1;
        })

  -- The claim of a token.
  unfoldable pub claim_token :
      AgentEnrollment
      → Text
      → Option (List ℕ)
      → Option (List ℕ)
      → ℕ
      → ℕ
      → Exec Database (Option ExchangeResult)
  unfolding issue_claimed
  claim_token e caller_ip id_raw secret_raw now later = do
    claimed ←
        update_where db enrollments_table (enrollment_where e.id EnrollmentStatus.pending)
          (claim now caller_ip)
    if not (claimed == 1)
        then refuse (enrollment EnrollmentError.bad_auth)
        else issue_claimed e caller_ip id_raw secret_raw now later

  -- The tests on the enrollment of a token.
  unfoldable pub exchange_found :
      Option AgentEnrollment
      → Text
      → Text
      → Option (List ℕ)
      → Option (List ℕ)
      → ℕ
      → ℕ
      → Exec Database (Option ExchangeResult)
  unfolding claim_token
  exchange_found none token caller_ip id_raw secret_raw now later = pure none
  exchange_found (some e) token caller_ip id_raw secret_raw now later =
      if not (e.status == EnrollmentStatus.pending)
        || not (verify_api_key sum256 token e.secret_hash)
      then pure none
      else if not (ltb now e.expires_at)
      then (update_where db enrollments_table (enrollment_where e.id EnrollmentStatus.pending)
            expire
          >> pure none)
      else claim_token e caller_ip id_raw secret_raw now later

  unfoldable pub exchange_tx :
      Text
      → Text
      → Text
      → Option (List ℕ)
      → Option (List ℕ)
      → ℕ
      → ℕ
      → Exec Database (Option ExchangeResult)
  unfolding exchange_found
  exchange_tx token_id token caller_ip id_raw secret_raw now later = do
    e ← first? db enrollments_table (λ e. e.token_id == token_id)
    exchange_found e token caller_ip id_raw secret_raw now later

  unfoldable pub exchange_id :
      Option Text
      → Text
      → Text
      → Option (List ℕ)
      → Option (List ℕ)
      → ℕ
      → ℕ
      → Exec Database ExchangeResult
  exchange_id none token caller_ip id_raw secret_raw now later =
      refuse (enrollment EnrollmentError.bad_auth)
  exchange_id (some token_id) token caller_ip id_raw secret_raw now later = do
    result ← db.transaction (exchange_tx token_id token caller_ip id_raw secret_raw now later)
    settle result

  -- Exchange
  unfoldable pub exchange :
      Text → Text → Option (List ℕ) → Option (List ℕ) → ℕ → ℕ → Exec Database ExchangeResult
  unfolding exchange_id
  exchange token caller_ip id_raw secret_raw now later =
      exchange_id (parse_enrollment_key_id token) token caller_ip id_raw secret_raw now later
