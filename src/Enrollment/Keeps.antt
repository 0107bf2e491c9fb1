-- ===== src/Enrollment/Keeps.antt =====
-- The life of an enrollment: how its status may move, and what never changes of it.
use olimpo.Common.{
  ℕ, ◌≡◌, refl, ◌∙◌, inl, inr, Bool, true, false, Option, some, List, [], ◌∷◌, ◌++◌, arith, nat_eq,
  find, update_rows, by_id, Bool-cases, find-update_hit, find-update_miss, find-append_old,
}
use olimpo.Model.{Database, AgentEnrollment, EnrollmentStatus, enrollment_status_eq}

-- How far a status may move: by one exchange of a token, by one call of another method, or by any
-- number of calls.
pub data Reason : Type 0 where
  an_exchange another_call any_calls : Reason

-- pending, then issued or expired or revoked; issued, then completed or revoked
abbrev pub leads_to : Reason → EnrollmentStatus → EnrollmentStatus → Bool
leads_to any_calls EnrollmentStatus.pending _ = true
leads_to an_exchange EnrollmentStatus.pending EnrollmentStatus.issued = true
leads_to an_exchange EnrollmentStatus.pending EnrollmentStatus.expired = true
leads_to another_call EnrollmentStatus.pending EnrollmentStatus.expired = true
leads_to another_call EnrollmentStatus.pending EnrollmentStatus.revoked = true
leads_to another_call EnrollmentStatus.issued EnrollmentStatus.completed = true
leads_to another_call EnrollmentStatus.issued EnrollmentStatus.revoked = true
leads_to any_calls EnrollmentStatus.issued EnrollmentStatus.completed = true
leads_to any_calls EnrollmentStatus.issued EnrollmentStatus.revoked = true
leads_to _ EnrollmentStatus.pending EnrollmentStatus.pending = true
leads_to _ EnrollmentStatus.issued EnrollmentStatus.issued = true
leads_to _ EnrollmentStatus.completed EnrollmentStatus.completed = true
leads_to _ EnrollmentStatus.revoked EnrollmentStatus.revoked = true
leads_to _ EnrollmentStatus.expired EnrollmentStatus.expired = true
leads_to _ _ _ = false

leads_to_refl : (w : Reason) (a : EnrollmentStatus) → leads_to w a a ≡ true
leads_to_refl w a = ground arith

leads_to_trans :
    (w : Reason) (a b c : EnrollmentStatus)
    → leads_to w a b ≡ true
    → leads_to w b c ≡ true
    → leads_to w a c ≡ true
leads_to_trans w a b c h k = ground arith

leads_to_any :
    (w : Reason) (a b : EnrollmentStatus) → leads_to w a b ≡ true → leads_to any_calls a b ≡ true
leads_to_any w a b h = ground arith

abbrev pub enrollment_at : ℕ → List AgentEnrollment → Option AgentEnrollment
enrollment_at i = find (by_id (λ e. e.id) i)

-- The second is a later form of the first.
pub record Advances (w : Reason) (e e' : AgentEnrollment) : Type 0 where
  pub status : leads_to w e.status e'.status ≡ true
  pub device : e'.device_id ≡ e.device_id
  pub token : e'.token_id ≡ e.token_id
  pub hash : e'.secret_hash ≡ e.secret_hash
  pub deadline : e'.expires_at ≡ e.expires_at

pub Advances-refl : (w : Reason) (e : AgentEnrollment) → Advances w e e
Advances-refl w e = record {
  status = leads_to_refl w e.status;
  device = refl;
  token = refl;
  hash = refl;
  deadline = refl;
}

pub Advances-trans :
    (w : Reason) (a b c : AgentEnrollment) → Advances w a b → Advances w b c → Advances w a c
Advances-trans w a b c h k = record {
  status = leads_to_trans w a.status b.status c.status h.status k.status;
  device = k.device ∙ h.device;
  token = k.token ∙ h.token;
  hash = k.hash ∙ h.hash;
  deadline = k.deadline ∙ h.deadline;
}

-- Every row is still there, in a later form.
abbrev pub RowsEvolve : Reason → List AgentEnrollment → List AgentEnrollment → Type 0
RowsEvolve w es es' =
    (i : ℕ) (e : AgentEnrollment)
    → enrollment_at i es ≡ some e
    → (e' : AgentEnrollment) × (enrollment_at i es' ≡ some e') × Advances w e e'

abbrev pub Evolves : Reason → Database → Database → Type 0
Evolves w s s' = RowsEvolve w s.enrollments s'.enrollments

pub Evolves-refl : (w : Reason) (s : Database) → Evolves w s s
Evolves-refl w s i e h = (e, h, Advances-refl w e)

pub Evolves-trans : (w : Reason) (s t u : Database) → Evolves w s t → Evolves w t u → Evolves w s u
Evolves-trans w s t u p q i a h =
    let (b, at, ab) = p i a h in
    let (c, at', bc) = q i b at in (c, at', Advances-trans w a b c ab bc)

pub Evolves-any : (w : Reason) (s t : Database) → Evolves w s t → Evolves any_calls s t
Evolves-any w s t h i e at =
    let (e', at', step) = h i e at in
    (
      e',
      at',
      record {
        status = leads_to_any w e.status e'.status step.status;
        device = step.device;
        token = step.token;
        hash = step.hash;
        deadline = step.deadline;
      },
    )

pub update-RowsEvolve :
    (w : Reason) (p : AgentEnrollment → Bool) (f : AgentEnrollment → AgentEnrollment)
    (es : List AgentEnrollment)
    → ((e : AgentEnrollment) → (f e).id ≡ e.id)
    → ((e : AgentEnrollment) → p e ≡ true → Advances w e (f e))
    → RowsEvolve w es (update_rows p f es)
update-RowsEvolve w p f es keeps step i e h = elim (Bool-cases (p e)) [
  | inl t ↦ (f e, find-update_hit (λ x. x.id) p f es keeps i e h t, step e t)
  | inr t ↦ (e, find-update_miss (λ x. x.id) p f es keeps i e h t, Advances-refl w e)
]

pub append-RowsEvolve :
    (w : Reason) (es : List AgentEnrollment) (new : AgentEnrollment)
    → RowsEvolve w es (es ++ new ∷ [])
append-RowsEvolve w es new i e h = (e, find-append_old (λ x. x.id) i es new e h, Advances-refl w e)

-- A row of that status, when only the status and the notes of a step are written.
pub step-Advances :
    (w : Reason) (e e' : AgentEnrollment) (a : EnrollmentStatus)
    → e.status ≡ a
    → leads_to w a e'.status ≡ true
    → e'.device_id ≡ e.device_id
    → e'.token_id ≡ e.token_id
    → e'.secret_hash ≡ e.secret_hash
    → e'.expires_at ≡ e.expires_at
    → Advances w e e'
step-Advances w e e' a st ok d t h x = record {
  status = rw st ok;
  device = d;
  token = t;
  hash = h;
  deadline = x;
}
