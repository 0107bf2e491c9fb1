-- ===== src/Enrollment/GrantSteps.antt =====
-- How Create and Exchange change the enrollments.
use olimpo.Common.{ℕ, refl, Option, none, some, List, Text, nat_eq, ℤ}
use olimpo.Gorm.{Gorm}
use olimpo.Gorm.Keeps.{
  Keeps, lift-Keeps, first_or-Keeps, first?-Keeps, count_rows-Keeps, create_row-Keeps,
}
use olimpo.Model.{
  Database, AgentEnrollment, enrollment_status_eq, devices_table, agent_credentials_table,
  enrollments_table,
}
use olimpo.AgentAuth.{issue_credential_tx}
use olimpo.Enrollment.{ExchangeResult, expire, claim, link_identity, settle}
use olimpo.Enrollment.Grant.{
  create_tx, create_token, issue_claimed, claim_token, exchange_found, exchange_tx, exchange_id,
  exchange,
}
use olimpo.Enrollment.Keeps.{
  an_exchange, another_call, Advances, Advances-refl, Evolves, Evolves-refl, Evolves-trans,
  append-RowsEvolve, step-Advances,
}
use olimpo.Enrollment.Steps.{seq, stop, give, branch, whole, step, has_status, expire_pending-Keeps}

module _ (db : Gorm) (sum256 : List ℕ → List ℕ) where
  pub create_token-Keeps :
      (d : ℕ) (ttl : ℤ) (a b : Option (List ℕ)) (now : ℕ) (s : Database)
      → Keeps (Evolves another_call) (create_token db sum256 d ttl a b now) s
  unfolding create_token create_tx
  create_token-Keeps d ttl a b now s = branch _ _ _ s (stop _ s) (
      whole db _ s (
        seq _ _ s (expire_pending-Keeps db d now s) λ _ t.
          seq _ _ t
            (first_or-Keeps (Evolves another_call) (Evolves-refl another_call)
              (Evolves-trans another_call) db devices_table _ _ t)
            λ _ u.
              seq _ _ u
                (count_rows-Keeps (Evolves another_call) (Evolves-refl another_call)
                  (Evolves-trans another_call) db enrollments_table _ u)
                λ _ w. branch _ _ _ w (stop _ w) (
                  seq _ _ w
                    (count_rows-Keeps (Evolves another_call) (Evolves-refl another_call)
                      (Evolves-trans another_call) db agent_credentials_table _ w)
                    λ _ x. branch _ _ _ x (stop _ x) (
                      seq _ _ x
                        (lift-Keeps (Evolves another_call) (Evolves-refl another_call)
                          (Evolves-trans another_call) _ x)
                        λ _ y.
                          seq _ _ y
                            (create_row-Keeps (Evolves another_call) (Evolves-refl another_call)
                              (Evolves-trans another_call) db enrollments_table _ y
                              (λ n at _. append-RowsEvolve another_call y.enrollments _))
                            λ e z. give _ z))))

  issue_credential_tx-Keeps :
      (d : ℕ) (a b : Option (List ℕ)) (now : ℕ) (s : Database)
      → Keeps (Evolves an_exchange) (issue_credential_tx db sum256 d a b now) s
  unfolding issue_credential_tx
  issue_credential_tx-Keeps d a b now s =
      seq _ _ s
        (first_or-Keeps (Evolves an_exchange) (Evolves-refl an_exchange) (Evolves-trans an_exchange)
          db devices_table _ _ s)
        λ _ t.
          seq _ _ t
            (count_rows-Keeps (Evolves an_exchange) (Evolves-refl an_exchange)
              (Evolves-trans an_exchange) db agent_credentials_table _ t)
            λ _ u. branch _ _ _ u (stop _ u) (
              seq _ _ u
                (lift-Keeps (Evolves an_exchange) (Evolves-refl an_exchange)
                  (Evolves-trans an_exchange) _ u)
                λ _ w.
                  seq _ _ w
                    (create_row-Keeps (Evolves an_exchange) (Evolves-refl an_exchange)
                      (Evolves-trans an_exchange) db agent_credentials_table _ w
                      (λ n at _. Evolves-refl an_exchange w))
                    λ c x. give _ x)

  claim_token-Keeps :
      (e : AgentEnrollment) (ip : Text) (a b : Option (List ℕ)) (now later : ℕ) (s : Database)
      → Keeps (Evolves an_exchange) (claim_token db sum256 e ip a b now later) s
  unfolding claim_token issue_claimed
  claim_token-Keeps e ip a b now later s =
      seq _ _ s
        (step db _ (claim now ip) s (λ x. refl)
          λ x h.
            step-Advances an_exchange x (claim now ip x) _ (has_status db e.id _ x h) refl refl refl
              refl refl)
        λ n t. branch _ _ _ t (stop _ t) (
          seq _ _ t (issue_credential_tx-Keeps e.device_id a b later t) λ c u.
            seq _ _ u (step db _ (link_identity c.0.id) u (λ x. refl) λ x h. linked c.0.id x) λ _ w.
              seq _ _ w
                (first_or-Keeps (Evolves an_exchange) (Evolves-refl an_exchange)
                  (Evolves-trans an_exchange) db devices_table _ _ w)
                λ _ x. give _ x)
    where
      linked : (i : ℕ) (x : AgentEnrollment) → Advances an_exchange x (link_identity i x)
      linked i x = record {
        status = (Advances-refl an_exchange x).status;
        device = refl;
        token = refl;
        hash = refl;
        deadline = refl;
      }

  exchange_found-Keeps :
      (o : Option AgentEnrollment) (token ip : Text) (a b : Option (List ℕ)) (now later : ℕ)
      (s : Database)
      → Keeps (Evolves an_exchange) (exchange_found db sum256 o token ip a b now later) s
  unfolding exchange_found
  exchange_found-Keeps none token ip a b now later s = give none s
  exchange_found-Keeps (some e) token ip a b now later s = branch _ _ _ s (give none s) (
      branch _ _ _ s
        (seq _ _ s
          (step db _ expire s (λ x. refl)
            λ x h.
              step-Advances an_exchange x (expire x) _ (has_status db e.id _ x h) refl refl refl
                refl refl)
          λ _ t. give none t)
        (claim_token-Keeps e ip a b now later s))

  settle-Keeps :
      (o : Option ExchangeResult) (s : Database) → Keeps (Evolves an_exchange) (settle o) s
  settle-Keeps none s = stop _ s
  settle-Keeps (some r) s = give r s

  exchange_id-Keeps :
      (o : Option Text) (token ip : Text) (a b : Option (List ℕ)) (now later : ℕ) (s : Database)
      → Keeps (Evolves an_exchange) (exchange_id db sum256 o token ip a b now later) s
  unfolding exchange_id exchange_tx
  exchange_id-Keeps none token ip a b now later s = stop _ s
  exchange_id-Keeps (some i) token ip a b now later s =
      seq _ _ s
        (whole db _ s (
          seq _ _ s
            (first?-Keeps (Evolves an_exchange) (Evolves-refl an_exchange)
              (Evolves-trans an_exchange) db enrollments_table _ s)
            λ o t. exchange_found-Keeps o token ip a b now later t))
        λ o t. settle-Keeps o t

  pub exchange-Keeps :
      (token ip : Text) (a b : Option (List ℕ)) (now later : ℕ) (s : Database)
      → Keeps (Evolves an_exchange) (exchange db sum256 token ip a b now later) s
  unfolding exchange
  exchange-Keeps token ip a b now later s = exchange_id-Keeps _ token ip a b now later s
