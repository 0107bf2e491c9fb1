-- ===== src/Enrollment/Once.antt =====
-- An enrollment is exchanged at most once, whatever else is called.
use mathlib.Core.Option.{some-injective}
use olimpo.Common.{
  ℕ, ◌≡◌, sym, ◌∙◌, ap, subst, true, Option, some, List, arith, Text, nat_eq, text_eq, Ascending,
}
use olimpo.Errors.{ok}
use olimpo.Gorm.{Gorm}
use olimpo.Gorm.Rules.{Outcome}
use olimpo.Model.{Database, AgentEnrollment, EnrollmentStatus, enrollment_status_eq}
use olimpo.AgentAuth.Identity.{OneIdentity}
use olimpo.Enrollment.{ExchangeResult}
use olimpo.Enrollment.Grant.{exchange}
use olimpo.Enrollment.Keeps.{enrollment_at, leads_to, any_calls}
use olimpo.Enrollment.Lifecycle.{Reach, Reach-Evolves}
use olimpo.Enrollment.Exchange.{Exchanged, NotExchanged, exchange_Sound}

-- An exchange that succeeds from the first database to the second, for the enrollment of that key.
abbrev pub Trades : Database → ℕ → Database → Type 1
Trades s i s' =
    (db : Gorm) × (sum256 : List ℕ → List ℕ) × (token : Text) × (ip : Text) × (a : Option (List ℕ))
    × (b : Option (List ℕ)) × (now : ℕ) × (later : ℕ) × (r : ExchangeResult) × (exchange db sum256
          token ip a b now later s
        ≡ (ok r, s'))
    × (r.enrollment.id ≡ i)

-- The row of a successful exchange, before and after it.
trade_row :
    (s s' : Database) (i : ℕ)
    → Ascending (λ e. e.id) s.enrollments
    → OneIdentity s.agent_credentials
    → Trades s i s'
    → ((e : AgentEnrollment) × (enrollment_at i s.enrollments ≡ some e)
        × (e.status ≡ EnrollmentStatus.pending))
      × ((e : AgentEnrollment) × (enrollment_at i s'.enrollments ≡ some e)
          × (e.status ≡ EnrollmentStatus.issued))
trade_row s s' i asc v (db, sum256, token, ip, a, b, now, later, r, run, own) =
    let h =
      subst (Outcome (Exchanged sum256 s token now) (NotExchanged s)) run
        (exchange_Sound db sum256 s asc v token ip a b now later).holds in
    let (e, at, parsed, pending, good, fresh, same, issued, linked, after, _, _, _, _, _, _, _, _) =
      h in
    let key : e.id ≡ i = sym same ∙ own in
    (
      (e, subst (λ j. enrollment_at j s.enrollments ≡ some e) key at, pending),
      (
        r.enrollment,
        subst (λ j. enrollment_at j s'.enrollments ≡ some r.enrollment) key after,
        issued,
      ),
    )

-- An enrollment is exchanged at most once: after a successful exchange and any further calls of the
-- enrollment service, no exchange succeeds for the same enrollment. Before both exchanges the keys
-- rise along the table and a device has at most one active identity.
pub exchanged_once :
    (s₀ s₁ s₂ s₃ : Database) (i : ℕ)
    → Ascending (λ e. e.id) s₀.enrollments
    → OneIdentity s₀.agent_credentials
    → Trades s₀ i s₁
    → Reach s₁ s₂
    → Ascending (λ e. e.id) s₂.enrollments
    → OneIdentity s₂.agent_credentials
    → ¬ Trades s₂ i s₃
exchanged_once s₀ s₁ s₂ s₃ i asc v first between asc' v' second =
    let (_, (e, at, issued)) = trade_row s₀ s₁ i asc v first in
    let ((k, k_at, pending), _) = trade_row s₂ s₃ i asc' v' second in
    let (e', at', step) = (Reach-Evolves between).0 i e at in
    let same : e' ≡ k = some-injective e' k (sym at' ∙ k_at) in
    never (subst (λ z. leads_to any_calls z e'.status ≡ true) issued step.status)
      (ap (λ (z : AgentEnrollment). z.status) same ∙ pending)
  where
    never :
        {a : EnrollmentStatus}
        → leads_to any_calls EnrollmentStatus.issued a ≡ true
        → a ≡ EnrollmentStatus.pending
        → ⊥
    never {a} h e = ground arith
