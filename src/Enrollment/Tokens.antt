-- ===== src/Enrollment/Tokens.antt =====
-- Exchange: what its caller must show for the database to change.
use olimpo.Common.{
  ℕ, ◌≡◌, ◌⊎◌, refl, sym, inl, inr, true, not, ◌||◌, Option, none, some, List, Text, arith, ◌==◌,
  nat_eq, text_eq, find, subst, Bool-cases,
}
use olimpo.Errors.{Error, refused, database, entropy, Result, ok, err}
use olimpo.Gorm.{Gorm, Exec, pure, refuse, ◌>>=◌, proceed}
use olimpo.Gorm.Rules.{Ensures, Ensures-pure, Outcome, transaction-Atomic}
use olimpo.Gorm.Statements.{first?-Ensures}
use olimpo.Gorm.Outcomes.{Atomic-after}
use olimpo.Model.{
  Database, AgentEnrollment, EnrollmentStatus, enrollment_status_eq, enrollments_table,
}
use olimpo.Keys.{parse_enrollment_key_id, verify_api_key}
use olimpo.Enrollment.{ExchangeResult, settle}
use olimpo.Enrollment.Grant.{exchange, exchange_id, exchange_tx, exchange_found}

-- The token names a pending enrollment, and its digest is the stored one.
abbrev pub TokenShown : (List ℕ → List ℕ) → Database → Text → Type 0
TokenShown sum256 s token =
    (id : Text) × (e : AgentEnrollment) × (parse_enrollment_key_id token ≡ some id)
    × (find (λ x. x.token_id == id) s.enrollments ≡ some e)
    × (e.status ≡ EnrollmentStatus.pending)
    × (verify_api_key sum256 token e.secret_hash ≡ true)

-- A postcondition that holds in any case.
Ensures-any :
    {A : Type 0} {G : A → Database → Type 0} (m : Exec Database A) (s : Database)
    → ((a : A) (t : Database) → G a t)
    → Ensures G (λ r. Unit) m s
Ensures-any {A = A} {G = G} m s h = record { holds = go (m s) }
  where
    go : (o : Result Error A × Database) → Outcome G (λ r. Unit) o
    go (ok a, t) = h a t
    go (err (refused r), t) = tt
    go (err (database e), t) = tt
    go (err entropy, t) = tt

settle-same : (o : Result Error (Option ExchangeResult) × Database) → (proceed settle o).1 ≡ o.1
unfolding pure refuse
settle-same (ok none, s) = refl
settle-same (ok (some r), s) = refl
settle-same (err e, s) = refl

module _ (db : Gorm) (sum256 : List ℕ → List ℕ) (s : Database) (token caller_ip : Text)
    (id_raw secret_raw : Option (List ℕ)) (now later : ℕ) where
  abbrev After : Option ExchangeResult → Database → Type 0
  After a t = (t ≡ s) ⊎ TokenShown sum256 s token

  exchange_found-After :
      (id : Text) (o : Option AgentEnrollment)
      → parse_enrollment_key_id token ≡ some id
      → find (λ x. x.token_id == id) s.enrollments ≡ o
      → Ensures After
          (λ r. Unit)
          (exchange_found db sum256 o token caller_ip id_raw secret_raw now later)
          s
  unfolding exchange_found
  exchange_found-After id none p f = Ensures-pure none s (inl refl)
  exchange_found-After id (some e) p f =
      elim (Bool-cases (
        not (e.status == EnrollmentStatus.pending)
        || not (verify_api_key sum256 token e.secret_hash))) [
          | inl t ↦ rw t (Ensures-pure none s (inl refl))
          | inr t ↦ rw t (
              Ensures-any _ s λ a u. inr (
                id,
                e,
                p,
                f,
                ground (arith, enrollment_status_eq.agrees e.status EnrollmentStatus.pending),
                ground arith,
              ))
        ]

  exchange_id-After :
      (o : Option Text)
      → parse_enrollment_key_id token ≡ o
      → ((exchange_id db sum256 o token caller_ip id_raw secret_raw now later s).1 ≡ s)
        ⊎ TokenShown sum256 s token
  unfolding exchange_id exchange_tx refuse ◌>>=◌
  exchange_id-After none p = inl refl
  exchange_id-After (some id) p =
      let body = exchange_tx db sum256 id token caller_ip id_raw secret_raw now later in
      subst (λ t. (t ≡ s) ⊎ TokenShown sum256 s token) (sym (settle-same (db.transaction body s)))
        (Atomic-after (λ t. (t ≡ s) ⊎ TokenShown sum256 s token) (db.transaction body) s (inl refl)
          (λ a t h. h)
          (transaction-Atomic db body s
            (first?-Ensures db enrollments_table _ _ s (exchange_found-After id _ p refl))))

  -- An exchange leaves the database as it was unless its token names a pending enrollment and has the
  -- digest that is stored for it.
  pub exchange-Shown :
      ((exchange db sum256 token caller_ip id_raw secret_raw now later s).1 ≡ s)
      ⊎ TokenShown sum256 s token
  unfolding exchange
  exchange-Shown = exchange_id-After (parse_enrollment_key_id token) refl
