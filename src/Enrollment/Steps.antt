-- ===== src/Enrollment/Steps.antt =====
-- How each method of the service but Create and Exchange changes the enrollments.
use olimpo.Common.{
  ℕ, ◌≡◌, refl, Bool, true, ◌&&◌, ◌||◌, Option, none, some, arith, Text, ◌==◌, nat_eq, leb,
  if◌then◌else◌,
}
use olimpo.Errors.{AgentAuthError, Refusal, Error, Result, ok, err}
use olimpo.Gorm.{Gorm, Exec, ◌>>=◌, pure, refuse, update_where}
use olimpo.Gorm.Keeps.{
  Keeps, pure-Keeps, refuse-Keeps, if-Keeps, transaction-Keeps, refuse_as-Keeps, bind-Keeps,
  first_or-Keeps, latest_or-Keeps, count_rows-Keeps, update_where-Keeps, ordered_rows-Keeps,
}
use olimpo.Model.{
  Database, AgentEnrollment, EnrollmentStatus, enrollment_status_eq, devices_table,
  agent_credentials_table, enrollments_table,
}
use olimpo.AgentAuth.{revoke_credential_tx}
use olimpo.Enrollment.{
  is_open_enrollment, enrollment_where, expire, complete, revoke_enrollment, if_not_found,
  on_not_found, expire_pending, reconcile_expired, get, complete_issued, confirm_enrollment_tx,
  confirm_enrollment, revoke_identity_of, record_revocation, revoke_at, revoke_tx, revoke_token,
  list_enrollments,
}
use olimpo.Enrollment.Keeps.{
  Reason, another_call, leads_to, Advances, Evolves, Evolves-refl, Evolves-trans, update-RowsEvolve,
  step-Advances,
}

-- The rules, for the evolution of enrollments.
module _ {w : Reason} {A B : Type 0} where
  pub seq :
      (m : Exec Database A) (k : A → Exec Database B) (s : Database)
      → Keeps (Evolves w) m s
      → ((a : A) (t : Database) → Keeps (Evolves w) (k a) t)
      → Keeps (Evolves w) (m >>= k) s
  seq = bind-Keeps (Evolves w) (Evolves-refl w) (Evolves-trans w)

module _ {w : Reason} {A : Type 0} where
  pub stop : (r : Refusal) (s : Database) → Keeps (Evolves w) (refuse {A = A} r) s
  stop = refuse-Keeps (Evolves w) (Evolves-refl w) (Evolves-trans w)

  pub give : (a : A) (s : Database) → Keeps (Evolves w) (pure a) s
  give = pure-Keeps (Evolves w) (Evolves-refl w) (Evolves-trans w)

  pub branch :
      (b : Bool) (m n : Exec Database A) (s : Database)
      → Keeps (Evolves w) m s
      → Keeps (Evolves w) n s
      → Keeps (Evolves w) (if b then m else n) s
  branch = if-Keeps (Evolves w) (Evolves-refl w) (Evolves-trans w)

  pub whole :
      (db : Gorm) (body : Exec Database A) (s : Database)
      → Keeps (Evolves w) body s
      → Keeps (Evolves w) (db.transaction body) s
  whole = transaction-Keeps (Evolves w) (Evolves-refl w) (Evolves-trans w)

module _ (db : Gorm) where
  -- An update of enrollments by steps of the state machine.
  pub step :
      {w : Reason} (p : AgentEnrollment → Bool) (f : AgentEnrollment → AgentEnrollment)
      (s : Database)
      → ((e : AgentEnrollment) → (f e).id ≡ e.id)
      → ((e : AgentEnrollment) → p e ≡ true → Advances w e (f e))
      → Keeps (Evolves w) (update_where db enrollments_table p f) s
  step {w = w} p f s keeps h =
      update_where-Keeps (Evolves w) (Evolves-refl w) (Evolves-trans w) db enrollments_table p f s
        (update-RowsEvolve w p f s.enrollments keeps h)

  pub has_status :
      (i : ℕ) (a : EnrollmentStatus) (e : AgentEnrollment)
      → enrollment_where i a e ≡ true
      → e.status ≡ a
  has_status i a e h = ground (arith, enrollment_status_eq.agrees e.status a)

  pub expire_pending-Keeps :
      (d now : ℕ) (s : Database) → Keeps (Evolves another_call) (expire_pending db d now) s
  unfolding expire_pending
  expire_pending-Keeps d now s =
      step _ expire s (λ e. refl)
        λ e h. step-Advances another_call e (expire e) _ (was_pending e h) refl refl refl refl refl
    where
      was_pending :
          (e : AgentEnrollment)
          → (e.status == EnrollmentStatus.pending
              && leb e.expires_at now
              && (d == 0 || e.device_id == d))
            ≡ true
          → e.status ≡ EnrollmentStatus.pending
      was_pending e h =
          ground (arith, enrollment_status_eq.agrees e.status EnrollmentStatus.pending)

  reconcile_expired-Keeps :
      (d now : ℕ) (s : Database) → Keeps (Evolves another_call) (reconcile_expired db d now) s
  unfolding reconcile_expired
  reconcile_expired-Keeps d now s = whole db _ s (expire_pending-Keeps d now s)

  pub get-Keeps : (d i now : ℕ) (s : Database) → Keeps (Evolves another_call) (get db d i now) s
  unfolding get
  get-Keeps d i now s = seq _ _ s (reconcile_expired-Keeps d now s) λ _ t.
      first_or-Keeps (Evolves another_call) (Evolves-refl another_call) (Evolves-trans another_call)
        db enrollments_table _ _ t

  pub list_enrollments-Keeps :
      (d now : ℕ) (s : Database) → Keeps (Evolves another_call) (list_enrollments db d now) s
  unfolding list_enrollments
  list_enrollments-Keeps d now s =
      seq _ _ s
        (seq _ _ s
          (count_rows-Keeps (Evolves another_call) (Evolves-refl another_call)
            (Evolves-trans another_call) db devices_table _ s)
          λ n t. branch _ _ _ t (stop _ t) (give tt t))
        λ _ t. seq _ _ t (reconcile_expired-Keeps d now t) λ _ u.
          ordered_rows-Keeps (Evolves another_call) (Evolves-refl another_call)
            (Evolves-trans another_call) db enrollments_table _ _ u

  complete_issued-Keeps :
      (e : AgentEnrollment) (now : ℕ) (s : Database)
      → Keeps (Evolves another_call) (complete_issued db e now) s
  unfolding complete_issued
  complete_issued-Keeps e now s = branch _ _ _ s (give e s) (
      seq _ _ s
        (step _ (complete now) s (λ x. refl)
          λ x h.
            step-Advances another_call x (complete now x) _ (has_status e.id _ x h) refl refl refl
              refl refl)
        λ n t. branch _ _ _ t (stop _ t) (give _ t))

  pub confirm_enrollment-Keeps :
      (d i : ℕ) (ip version : Text) (now : ℕ) (s : Database)
      → Keeps (Evolves another_call) (confirm_enrollment db d i ip version now) s
  unfolding confirm_enrollment confirm_enrollment_tx
  confirm_enrollment-Keeps d i ip version now s = whole db _ s (
      seq _ _ s
        (latest_or-Keeps (Evolves another_call) (Evolves-refl another_call)
          (Evolves-trans another_call) db enrollments_table _ _ _ s)
        λ e t. seq _ _ t (complete_issued-Keeps e now t) λ r u.
          seq _ _ u
            (update_where-Keeps (Evolves another_call) (Evolves-refl another_call)
              (Evolves-trans another_call) db devices_table _ _ u (Evolves-refl another_call u))
            λ _ w. give r w)

  revoke_credential_tx-Keeps :
      (d i now : ℕ) (s : Database)
      → Keeps (Evolves another_call) (revoke_credential_tx db d i now) s
  unfolding revoke_credential_tx
  revoke_credential_tx-Keeps d i now s =
      seq _ _ s
        (update_where-Keeps (Evolves another_call) (Evolves-refl another_call)
          (Evolves-trans another_call) db agent_credentials_table _ _ s
          (Evolves-refl another_call s))
        λ n t. branch _ _ _ t (stop _ t) (give tt t)

  on_not_found-Keeps :
      (handler m : Exec Database (Unit {0})) (s : Database)
      → Keeps (Evolves another_call) m s
      → ((t : Database) → Keeps (Evolves another_call) handler t)
      → Keeps (Evolves another_call) (on_not_found handler m) s
  on_not_found-Keeps handler m s h k = record { kept = go (m s) h.kept }
    where
      go :
          (o : Result Error (Unit {0}) × Database)
          → Evolves another_call s o.1
          → Evolves another_call s (if_not_found handler o).1
      go (ok u, t) e = e
      go (err (Error.refused (Refusal.agent_auth AgentAuthError.credential_not_found)), t) e =
          Evolves-trans another_call s t (handler t).1 e (k t).kept
      go (err (Error.refused (Refusal.agent_auth AgentAuthError.bad_auth)), t) e = e
      go (err (Error.refused (Refusal.agent_auth AgentAuthError.device_not_found)), t) e = e
      go (err (Error.refused (Refusal.agent_auth AgentAuthError.active_credential_exists)), t) e = e
      go (err (Error.refused (Refusal.credential r)), t) e = e
      go (err (Error.refused (Refusal.enrollment r)), t) e = e
      go (err (Error.refused (Refusal.ddns r)), t) e = e
      go (err (Error.refused (Refusal.telemetry r)), t) e = e
      go (err (Error.refused (Refusal.network r)), t) e = e
      go (err (Error.database d), t) e = e
      go (err Error.entropy, t) e = e

  revoke_identity_of-Keeps :
      (o : Option ℕ) (d now : ℕ) (s : Database)
      → Keeps (Evolves another_call) (revoke_identity_of db o d now) s
  unfolding revoke_identity_of
  revoke_identity_of-Keeps none d now s = stop _ s
  revoke_identity_of-Keeps (some i) d now s =
      on_not_found-Keeps _ _ s (revoke_credential_tx-Keeps d i now s) λ t.
        seq _ _ t
          (refuse_as-Keeps (Evolves another_call) (Evolves-refl another_call)
            (Evolves-trans another_call) _ _ t
            (first_or-Keeps (Evolves another_call) (Evolves-refl another_call)
              (Evolves-trans another_call) db agent_credentials_table _ _ t))
          λ _ u. give tt u

  record_revocation-Keeps :
      (e : AgentEnrollment) (now : ℕ) (s : Database)
      → Keeps (Evolves another_call) (record_revocation db e now) s
  unfolding record_revocation
  record_revocation-Keeps e now s =
      seq _ _ s
        (step _ (revoke_enrollment now) s (λ x. refl)
          (λ x h. record {
            status = from_open x h;
            device = refl;
            token = refl;
            hash = refl;
            deadline = refl;
          }))
        λ n t. branch _ _ _ t (stop _ t) (give _ t)
    where
      from_open :
          (x : AgentEnrollment)
          → (x.id == e.id && is_open_enrollment x.status) ≡ true
          → leads_to another_call x.status EnrollmentStatus.revoked ≡ true
      from_open x h = go x.status (ground arith)
        where
          go :
              (a : EnrollmentStatus)
              → is_open_enrollment a ≡ true
              → leads_to another_call a EnrollmentStatus.revoked ≡ true
          go a h = ground arith

  revoke_at-Keeps :
      (e : AgentEnrollment) (status : EnrollmentStatus) (d now later : ℕ) (s : Database)
      → Keeps (Evolves another_call) (revoke_at db e status d now later) s
  unfolding revoke_at
  revoke_at-Keeps e EnrollmentStatus.revoked d now later s = give e s
  revoke_at-Keeps e EnrollmentStatus.pending d now later s = record_revocation-Keeps e now s
  revoke_at-Keeps e EnrollmentStatus.issued d now later s =
      seq _ _ s (revoke_identity_of-Keeps e.agent_credential_id d later s)
        λ _ t. record_revocation-Keeps e now t
  revoke_at-Keeps e EnrollmentStatus.completed d now later s = stop _ s
  revoke_at-Keeps e EnrollmentStatus.expired d now later s = stop _ s

  pub revoke_token-Keeps :
      (d i start now later : ℕ) (s : Database)
      → Keeps (Evolves another_call) (revoke_token db d i start now later) s
  unfolding revoke_token revoke_tx
  revoke_token-Keeps d i start now later s = seq _ _ s (reconcile_expired-Keeps d start s) λ _ t.
      whole db _ t (
        seq _ _ t
          (first_or-Keeps (Evolves another_call) (Evolves-refl another_call)
            (Evolves-trans another_call) db enrollments_table _ _ t)
          λ e u. revoke_at-Keeps e e.status d now later u)
