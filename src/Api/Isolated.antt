-- ===== src/Api/Isolated.antt =====
-- What a request for one device may touch: the rows of every other device stay as they are.
pub mod Rotations
pub mod Agents
pub mod Requests
pub mod Reports
use olimpo.Common.{
  ℕ, ◌≡◌, refl, ◌∙◌, inl, inr, Bool, true, false, if◌then◌else◌, Option, none, some, List, [], ◌∷◌,
  ◌<◌, arith, nat_beq, nat_beq_iff, All, Ascending, foreign, subst, Text,
}
use olimpo.Errors.{Refusal, Error, Result, ok, err}
use olimpo.Gorm.{Exec, In, refuse}
use olimpo.Gorm.Rules.{Ensures, Atomic, Ensures-refuse, Atomic-refuse}
use olimpo.Gorm.Outcomes.{Atomic-after}
use olimpo.Model.{Database}
use olimpo.AgentAuth.{Context}
use olimpo.Credential.Base.{deref}
use olimpo.Api.Requests.{Status}
use olimpo.Api.Replies.{
  Reply, Handler, respond, validated, Bound, end_of_file, malformed, bound, with_body,
  with_optional_body, with_id, with_param, with_context, parse_uint_param,
}

-- Primary keys rise along the tables whose rows are updated by their keys.
pub record HasKeys (s : Database) : Type 0 where
  pub identities : Ascending (λ x. x.id) s.agent_credentials
  pub enrollments : Ascending (λ x. x.id) s.enrollments
  pub telemetry : Ascending (λ x. x.id) s.telemetry_snapshots
  pub snapshots : Ascending (λ x. x.id) s.network_snapshots
  pub rotations : Ascending (λ x. x.id) s.rotations

-- From the first database to the second, only rows of the device have changed, and no host, domain
-- or log.
pub record Isolated (d : ℕ) (s t : Database) : Type 0 where
  pub devices : foreign (λ x. x.id) d t.devices ≡ foreign (λ x. x.id) d s.devices
  pub identities :
      foreign (λ x. x.device_id) d t.agent_credentials
      ≡ foreign (λ x. x.device_id) d s.agent_credentials
  pub enrollments :
      foreign (λ x. x.device_id) d t.enrollments ≡ foreign (λ x. x.device_id) d s.enrollments
  pub telemetry :
      foreign (λ x. x.device_id) d t.telemetry_snapshots
      ≡ foreign (λ x. x.device_id) d s.telemetry_snapshots
  pub snapshots :
      foreign (λ x. x.device_id) d t.network_snapshots
      ≡ foreign (λ x. x.device_id) d s.network_snapshots
  pub wans :
      foreign (λ x. x.device_id) d t.network_wans ≡ foreign (λ x. x.device_id) d s.network_wans
  pub segments :
      foreign (λ x. x.device_id) d t.network_segments
      ≡ foreign (λ x. x.device_id) d s.network_segments
  pub credentials :
      foreign (λ x. x.device_id) d t.ddns_credentials
      ≡ foreign (λ x. x.device_id) d s.ddns_credentials
  pub rotations :
      foreign (λ x. x.device_id) d t.rotations ≡ foreign (λ x. x.device_id) d s.rotations
  pub hosts : t.hosts ≡ s.hosts
  pub domains : t.domains ≡ s.domains
  pub logs : t.update_logs ≡ s.update_logs

module _ (d : ℕ) where
  pub Isolated-refl : (s : Database) → Isolated d s s
  Isolated-refl s = record {
    devices = refl;
    identities = refl;
    enrollments = refl;
    telemetry = refl;
    snapshots = refl;
    wans = refl;
    segments = refl;
    credentials = refl;
    rotations = refl;
    hosts = refl;
    domains = refl;
    logs = refl;
  }

  pub Isolated-trans : (s t u : Database) → Isolated d s t → Isolated d t u → Isolated d s u
  Isolated-trans s t u h k = record {
    devices = k.devices ∙ h.devices;
    identities = k.identities ∙ h.identities;
    enrollments = k.enrollments ∙ h.enrollments;
    telemetry = k.telemetry ∙ h.telemetry;
    snapshots = k.snapshots ∙ h.snapshots;
    wans = k.wans ∙ h.wans;
    segments = k.segments ∙ h.segments;
    credentials = k.credentials ∙ h.credentials;
    rotations = k.rotations ∙ h.rotations;
    hosts = k.hosts ∙ h.hosts;
    domains = k.domains ∙ h.domains;
    logs = k.logs ∙ h.logs;
  }

  -- A call that succeeds only so, and changes nothing where it fails.
  pub Atomic-Isolated :
      {A : Type 0} {G : A → Database → Type 0} {B : Refusal → Type 0} (m : Exec Database A)
      (s : Database)
      → ((a : A) (t : Database) → G a t → Isolated d s t)
      → Atomic G B m s
      → Isolated d s (m s).1
  Atomic-Isolated m s h a = Atomic-after (Isolated d s) m s (Isolated-refl s) h a

-- The same as a postcondition; what refuses is of no matter.
abbrev pub Stays : ℕ → Database → {A : Type 0} → A → Database → Type 0
Stays d s a t = Isolated d s t

abbrev pub Any : Refusal → Type 0
Any r = Unit

module _ (d : ℕ) (s : Database) {A : Type 0} where
  pub refused-Stays :
      (b : Bool) (r : Refusal) (m : Exec Database A) (t : Database)
      → Ensures (Stays d s) Any m t
      → Ensures (Stays d s) Any (if b then refuse r else m) t
  refused-Stays true r m t h = Ensures-refuse r t tt
  refused-Stays false r m t h = h

  pub refused-Atomic :
      (b : Bool) (r : Refusal) (m : Exec Database A)
      → Atomic (Stays d s) Any m s
      → Atomic (Stays d s) Any (if b then refuse r else m) s
  refused-Atomic true r m h = Atomic-refuse r s tt
  refused-Atomic false r m h = h

  pub deref-Stays :
      (o : Option ℕ) (k : ℕ → Exec Database A) (t : Database)
      → ((n : ℕ) → Ensures (Stays d s) Any (k n) t)
      → Ensures (Stays d s) Any (deref o k) t
  deref-Stays none k t h = Ensures-refuse _ t tt
  deref-Stays (some n) k t h = h n

above_key :
    {A : Type 0} (id : A → ℕ) (n : ℕ) (xs : List A) (h : A)
    → All (λ y. n < id y) xs
    → In h xs
    → n < id h
above_key id n (x ∷ xs) h a (inl e) = subst (λ z. n < id z) e a.0
above_key id n (x ∷ xs) h a (inr i) = above_key id n xs h a.1 i
above_key id n [] h a i = absurd i

-- No other row has the key of a row of the table.
pub In-unique :
    {A : Type 0} (id : A → ℕ) (xs : List A) (h : A)
    → Ascending id xs
    → In h xs
    → All (λ y. nat_beq (id y) (id h) ≡ true → y ≡ h) xs
In-unique id [] h a i = tt
In-unique {A = A} id (x ∷ xs) h a (inl e) =
    (λ _. e, go xs (subst (λ z. All (λ y. id z < id y) xs) e a.0))
  where
    go :
        (ys : List A)
        → All (λ y. id h < id y) ys
        → All (λ y. nat_beq (id y) (id h) ≡ true → y ≡ h) ys
    go [] b = tt
    go (y ∷ ys) b = (λ t. absurd (ground (arith, nat_beq_iff (id y) (id h))), go ys b.1)
In-unique id (x ∷ xs) h a (inr i) = (
  λ t. absurd (ground (arith, nat_beq_iff (id x) (id h), above_key id (id x) xs h a.0 i)),
  In-unique id xs h a.1 i,
)

-- What holds before a handler, and after the call that it makes, holds after it.
module _ (P : Database → Type 0) (s : Database) where
  pub respond-after :
      {A : Type 0} (good : A → Reply) (code_of : Error → Status) (r : Result Error A × Database)
      → P r.1
      → P (respond good code_of r).1
  respond-after good code_of (ok a, t) h = h
  respond-after good code_of (err e, t) h = h

  validated-after : (o : Option Text) (h : Handler) → P s → P (h s).1 → P (validated o h s).1
  validated-after none h p q = q
  validated-after (some reason) h p q = p

  module _ {R : Type 0} (valid : R → Option Text) (h : R → Handler) where
    pub with_body-after :
        (b : Bound R) → P s → ((r : R) → P (h r s).1) → P (with_body valid b h s).1
    unfolding with_body
    with_body-after (end_of_file reason) p q = p
    with_body-after (malformed reason) p q = p
    with_body-after (bound r) p q = validated-after (valid r) (h r) p (q r)

    pub with_optional_body-after :
        (zero_value : R) (b : Bound R)
        → P s
        → ((r : R) → P (h r s).1)
        → P (with_optional_body zero_value valid b h s).1
    unfolding with_optional_body
    with_optional_body-after z (end_of_file reason) p q = validated-after (valid z) (h z) p (q z)
    with_optional_body-after z (malformed reason) p q = p
    with_optional_body-after z (bound r) p q = validated-after (valid r) (h r) p (q r)

  pub with_param-after :
      (param reason : List ℕ) (h : ℕ → Handler)
      → P s
      → ((i : ℕ) → P (h i s).1)
      → P (with_param param reason h s).1
  unfolding with_param
  with_param-after param reason h p q = go (parse_uint_param param)
    where
      go : (o : Option ℕ) → P (with_id o reason h s).1
      go none = p
      go (some i) = q i
