-- ===== src/Enrollment/Lifecycle.antt =====
-- Every method moves enrollments only forward, whether it succeeds, is refused or fails.
use olimpo.Common.{ℕ, Option, List, Text, nat_eq, ℤ}
use olimpo.Gorm.{Gorm}
use olimpo.Model.{Database, enrollment_status_eq}
use olimpo.Enrollment.{get, confirm_enrollment, revoke_token, list_enrollments}
use olimpo.Enrollment.Grant.{create_token, exchange}
use olimpo.Enrollment.Keeps.{
  Reason, an_exchange, another_call, any_calls, Evolves, Evolves-refl, Evolves-trans, Evolves-any,
}
use olimpo.Enrollment.Steps.{
  confirm_enrollment-Keeps, get-Keeps, list_enrollments-Keeps, revoke_token-Keeps,
}
use olimpo.Enrollment.GrantSteps.{create_token-Keeps, exchange-Keeps}

-- A call of a method, with its arguments, its random bytes and the times that it reads.
pub data Call : Type 0 where
  create : ℕ → ℤ → Option (List ℕ) → Option (List ℕ) → ℕ → Call
  exchange_token : Text → Text → Option (List ℕ) → Option (List ℕ) → ℕ → ℕ → Call
  confirm_use : ℕ → ℕ → Text → Text → ℕ → Call
  look_up : ℕ → ℕ → ℕ → Call
  list_all : ℕ → ℕ → Call
  revoke : ℕ → ℕ → ℕ → ℕ → ℕ → Call

-- The database that a call leaves.
unfoldable pub run : Gorm → (List ℕ → List ℕ) → Call → Database → Database
run db sum256 (create d ttl a b now) s = (create_token db sum256 d ttl a b now s).1
run db sum256 (exchange_token token ip a b now later) s =
    (exchange db sum256 token ip a b now later s).1
run db sum256 (confirm_use d i ip version now) s = (confirm_enrollment db d i ip version now s).1
run db sum256 (look_up d i now) s = (get db d i now s).1
run db sum256 (list_all d now) s = (list_enrollments db d now s).1
run db sum256 (revoke d i start now later) s = (revoke_token db d i start now later s).1

-- Only an exchange issues.
abbrev pub reason_of : Call → Reason
reason_of (exchange_token token ip a b now later) = an_exchange
reason_of _ = another_call

run-Evolves :
    (db : Gorm) (sum256 : List ℕ → List ℕ) (c : Call) (s : Database)
    → Evolves (reason_of c) s (run db sum256 c s)
unfolding run
run-Evolves db sum256 (create d ttl a b now) s = (create_token-Keeps db sum256 d ttl a b now s).kept
run-Evolves db sum256 (exchange_token token ip a b now later) s =
    (exchange-Keeps db sum256 token ip a b now later s).kept
run-Evolves db sum256 (confirm_use d i ip version now) s =
    (confirm_enrollment-Keeps db d i ip version now s).kept
run-Evolves db sum256 (look_up d i now) s = (get-Keeps db d i now s).kept
run-Evolves db sum256 (list_all d now) s = (list_enrollments-Keeps db d now s).kept
run-Evolves db sum256 (revoke d i start now later) s =
    (revoke_token-Keeps db d i start now later s).kept

-- What any calls leave, each with its own database behaviour and digest.
pub data Reach (s : Database) : Database → Type 1 where
  here : Reach s s
  next :
      {t : Database}
      → Reach s t
      → (db : Gorm) (sum256 : List ℕ → List ℕ) (c : Call) → Reach s (run db sum256 c t)

Reach-Evolves_any : {s t : Database} → Reach s t → Evolves any_calls s t
Reach-Evolves_any {s = s} here = Evolves-refl any_calls s
Reach-Evolves_any {s = s} (next {t = t} r db sum256 c) =
    Evolves-trans any_calls s t (run db sum256 c t) (Reach-Evolves_any r)
      (Evolves-any (reason_of c) t (run db sum256 c t) (run-Evolves db sum256 c t))

-- Over any calls of the enrollment service, successful or not, every enrollment stays in the table
-- with its device, token, hash and deadline, and its status moves only along the state machine. Each
-- further call moves it by one arrow at most: an exchange from pending to issued or expired, any
-- other method from pending to expired or revoked, or from issued to completed or revoked.
pub Reach-Evolves :
    {s t : Database}
    → Reach s t
    → Evolves any_calls s t
      × ((db : Gorm) (sum256 : List ℕ → List ℕ) (c : Call)
          → Evolves (reason_of c) t (run db sum256 c t))
Reach-Evolves {t = t} r = (Reach-Evolves_any r, λ db sum256 c. run-Evolves db sum256 c t)
