-- ===== src/Domains.antt =====
-- products/hermes/internal/database/database.go: EnsureDomains, which seeds the managed domains.
use olimpo.Common.{
  ◌≡◌, refl, inl, inr, Bool, true, Option, none, some, List, [], ◌∷◌, ◌++◌, All, Text, arith, ◌==◌,
  text_eq, text_beq_iff, find, ℤ, Bool-cases,
}
use olimpo.Gorm.{Gorm, Exec, pure, ◌>>=◌, ◌>>◌, first?, create_row}
use olimpo.Gorm.Rules.{Ensures, Ensures-weaken, Ensures-pure, Ensures-bind}
use olimpo.Gorm.Statements.{first?-Ensures, create_row-Ensures}
use olimpo.Model.{Database, Domain, domains_table}

abbrev pub named : Text → Domain → Bool
named name d = d.name == name

module _ (db : Gorm) where
  unfoldable pub ensure_domain : Text → ℤ → Bool → Option Domain → Exec Database (Unit {0})
  ensure_domain name default_ttl wildcard (some d) = pure tt
  ensure_domain name default_ttl wildcard none = do
    create_row db domains_table (λ id at. record {
      id = id;
      name = name;
      default_ttl = default_ttl;
      enabled = true;
      wildcard = wildcard;
    })
    pure tt

  -- EnsureDomains
  unfoldable pub ensure_domains : List Text → ℤ → Bool → Exec Database (Unit {0})
  unfolding ensure_domain
  ensure_domains [] default_ttl wildcard = pure tt
  ensure_domains (name ∷ names) default_ttl wildcard = do
    d ← first? db domains_table (named name)
    ensure_domain name default_ttl wildcard d
    ensure_domains names default_ttl wildcard

-- A domain of that name.
abbrev pub HasDomain : Database → Text → Type 0
HasDomain s name = (d : Domain) × (find (named name) s.domains ≡ some d)

-- No domain is lost and none is changed.
abbrev pub KeepsDomains : Database → Database → Type 0
KeepsDomains s t =
    (name : Text) (d : Domain)
    → find (named name) s.domains ≡ some d
    → find (named name) t.domains ≡ some d

find-append_first :
    (p : Domain → Bool) (xs : List Domain) (x d : Domain)
    → find p xs ≡ some d
    → find p (xs ++ x ∷ []) ≡ some d
unfolding find
find-append_first p [] x d h = cc
find-append_first p (y ∷ ys) x d h = elim (Bool-cases (p y)) [
  | inl t ↦ rw t (rw t at h)
  | inr t ↦ rw t (find-append_first p ys x d (rw t at h))
]

find-append_last :
    (p : Domain → Bool) (xs : List Domain) (x : Domain)
    → find p xs ≡ none
    → p x ≡ true
    → find p (xs ++ x ∷ []) ≡ some x
unfolding find
find-append_last p [] x h t = rw t refl
find-append_last p (y ∷ ys) x h t = elim (Bool-cases (p y)) [
  | inl u ↦ absurd (ground arith)
  | inr u ↦ rw u (find-append_last p ys x (rw u at h) t)
]

-- What a seeding leaves: a domain for every name, and the old ones as they were.
abbrev pub Seeded : Database → List Text → Unit {0} → Database → Type 0
Seeded s names u t = All (HasDomain t) names × KeepsDomains s t

module _ (db : Gorm) (ttl : ℤ) (wildcard : Bool) where
  ensure_domain-Ensures :
      (name : Text) (o : Option Domain) (s : Database)
      → find (named name) s.domains ≡ o
      → Ensures
          (λ u t. HasDomain t name × KeepsDomains s t)
          (λ e. ⊥)
          (ensure_domain db name ttl wildcard o)
          s
  unfolding ensure_domain
  ensure_domain-Ensures name (some d) s h = Ensures-pure tt s ((d, h), λ n e k. k)
  ensure_domain-Ensures name none s h = create_row-Ensures db domains_table _ _ s λ n at _ _.
      Ensures-pure tt _ (
        (_, find-append_last (named name) s.domains _ h ((text_beq_iff name name).1 refl)),
        λ other d k. find-append_first (named other) s.domains _ d k,
      )

  -- A seeding that succeeds leaves a domain for every configured name, and the domains that were there
  -- as they were. It is never refused.
  pub ensure_domains-Ensures :
      (names : List Text) (s : Database)
      → Ensures (Seeded s names) (λ e. ⊥) (ensure_domains db names ttl wildcard) s
  unfolding ensure_domains
  ensure_domains-Ensures [] s = Ensures-pure tt s (tt, λ n d k. k)
  ensure_domains-Ensures (name ∷ names) s = first?-Ensures db domains_table _ _ s (
      Ensures-bind _ _ _ s (ensure_domain-Ensures name _ s refl) λ u t h.
        let ((d, at), keep) = h in again names t s d name at keep (ensure_domains-Ensures names t))
    where
      again :
          (names : List Text) (t s : Database) (d : Domain) (name : Text)
          → find (named name) t.domains ≡ some d
          → KeepsDomains s t
          → Ensures (Seeded t names) (λ e. ⊥) (ensure_domains db names ttl wildcard) t
          → Ensures (Seeded s (name ∷ names)) (λ e. ⊥) (ensure_domains db names ttl wildcard) t
      again names t s d name at keep h =
          Ensures-weaken _ t (λ u w k. (((d, k.1 name d at), k.0), λ n e i. k.1 n e (keep n e i))) h
