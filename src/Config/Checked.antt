-- ===== src/Config/Checked.antt =====
-- Load: what a configuration that is loaded satisfies, and what each error says of the environment.
use olimpo.Common.{
  ◌≡◌, ◌⊎◌, ◌≤◌, refl, inl, inr, Bool, true, false, not, ◌&&◌, ◌||◌, List, [], ◌∷◌, ◌==◌, text_eq,
  text_beq_iff, Text, arith, ℤ, pos, negsuc, ltb_ℤ, All, Bool-cases,
}
use olimpo.Errors.{Result, ok, err}
use olimpo.Text.{text, is_empty, trim_space, to_lower}
use olimpo.Ddns.{trim_dot}
use olimpo.Config.{
  Config, ConfigError, Environment, split_comma, keep_items, read_config, check_config, load,
  no_items,
}

-- A time to live of 20 to 86400 seconds.
abbrev pub IsTtl : ℤ → Type 0
IsTtl (pos n) = (20 ≤ n) × (n ≤ 86400)
IsTtl (negsuc n) = ⊥

abbrev pub IsGuarded : Config → Type 0
IsGuarded cfg = (is_empty cfg.admin_login ≡ false) ⊎ (cfg.allow_insecure_admin ≡ true)

abbrev pub IsPolicy : Text → Type 0
IsPolicy policy = (policy ≡ text "device-prefix") ⊎ (policy ≡ text "any")

abbrev pub HasDomains : List Text → Type 0
HasDomains domains = (¬ (domains ≡ [])) × All (λ d. is_empty d ≡ false) domains

-- What each outcome of Load says: the first test that fails.
abbrev pub LoadOutcome : Config → Result ConfigError Config → Type 0
LoadOutcome cfg (ok loaded) =
    (loaded ≡ cfg)
    × IsGuarded cfg
    × IsPolicy cfg.autocreate_policy
    × HasDomains cfg.allowed_domains
    × IsTtl cfg.default_ttl
LoadOutcome cfg (err ConfigError.no_admin_login) = ¬ IsGuarded cfg
LoadOutcome cfg (err ConfigError.unknown_policy) =
    IsGuarded cfg × (¬ IsPolicy cfg.autocreate_policy)
LoadOutcome cfg (err ConfigError.no_domains) =
    IsGuarded cfg × IsPolicy cfg.autocreate_policy × (cfg.allowed_domains ≡ [])
LoadOutcome cfg (err ConfigError.ttl_out_of_range) =
    IsGuarded cfg
    × IsPolicy cfg.autocreate_policy
    × (¬ (cfg.allowed_domains ≡ []))
    × (¬ IsTtl cfg.default_ttl)

keep_items_filled : (items : List Text) → All (λ d. is_empty d ≡ false) (keep_items items)
unfolding keep_items
keep_items_filled [] = tt
keep_items_filled (item ∷ items) =
    elim (Bool-cases (is_empty (trim_space (trim_dot (to_lower item))))) [
      | inl t ↦ rw t (keep_items_filled items)
      | inr t ↦ rw t (t, keep_items_filled items)
    ]

bounds-IsTtl : (v : ℤ) → (ltb_ℤ v (pos 20) || ltb_ℤ (pos 86400) v) ≡ false → IsTtl v
bounds-IsTtl (pos n) h = (ground arith, ground arith)
bounds-IsTtl (negsuc n) h = absurd (ground arith)

bounds_outside : (v : ℤ) → (ltb_ℤ v (pos 20) || ltb_ℤ (pos 86400) v) ≡ true → ¬ IsTtl v
bounds_outside (pos n) h (a, b) = ground arith
bounds_outside (negsuc n) h k = k

no_items-nil : (xs : List Text) → no_items xs ≡ true → xs ≡ []
no_items-nil [] h = refl
no_items-nil (x ∷ xs) h = absurd (ground arith)

no_items-cons : (xs : List Text) → no_items xs ≡ false → ¬ (xs ≡ [])
no_items-cons [] h e = absurd (ground arith)
no_items-cons (x ∷ xs) h e = absurd (ground arith)

guarded :
    (cfg : Config)
    → (is_empty cfg.admin_login && not cfg.allow_insecure_admin) ≡ false
    → IsGuarded cfg
guarded cfg h = ground arith

unguarded :
    (cfg : Config)
    → (is_empty cfg.admin_login && not cfg.allow_insecure_admin) ≡ true
    → ¬ IsGuarded cfg
unguarded cfg h (inl k) = ground arith
unguarded cfg h (inr k) = ground arith

abbrev is_unknown : Text → Bool
is_unknown policy = not (policy == text "device-prefix") && not (policy == text "any")

known-IsPolicy : (policy : Text) → is_unknown policy ≡ false → IsPolicy policy
known-IsPolicy policy h = elim (Bool-cases (policy == text "device-prefix")) [
  | inl t ↦ inl ((text_beq_iff policy (text "device-prefix")).0 t)
  | inr t ↦ inr ((text_beq_iff policy (text "any")).0 (ground arith))
]

unknown-IsPolicy : (policy : Text) → is_unknown policy ≡ true → ¬ IsPolicy policy
unknown-IsPolicy policy h (inl e) =
    let t = (text_beq_iff policy (text "device-prefix")).1 e in absurd (ground arith)
unknown-IsPolicy policy h (inr e) =
    let t = (text_beq_iff policy (text "any")).1 e in absurd (ground arith)

-- Load either gives the configuration of the environment, and then there is an administrator's login
-- or the lack of one is allowed, the policy is one of the two known ones, there is a domain and none
-- is empty, and the time to live is 20 to 86400 seconds; or its error names the first of these that
-- does not hold.
pub load_Sound : (env : Environment) → LoadOutcome (read_config env) (load env)
unfolding load
load_Sound env =
    go (read_config env) (keep_items_filled (split_comma (env (text "HERMES_DOMAINS"))))
  where
    go :
        (cfg : Config)
        → All (λ d. is_empty d ≡ false) cfg.allowed_domains
        → LoadOutcome cfg (check_config cfg)
    go cfg filled = elim (Bool-cases (is_empty cfg.admin_login && not cfg.allow_insecure_admin)) [
      | inl t ↦ rw t (unguarded cfg t)
      | inr t ↦ rw t (elim (Bool-cases (is_unknown cfg.autocreate_policy)) [
        | inl u ↦ rw u (guarded cfg t, unknown-IsPolicy cfg.autocreate_policy u)
        | inr u ↦ rw u (elim (Bool-cases (no_items cfg.allowed_domains)) [
          | inl v ↦ rw v (
            guarded cfg t,
            known-IsPolicy cfg.autocreate_policy u,
            no_items-nil cfg.allowed_domains v,
          )
          | inr v ↦
              rw v
                (elim (Bool-cases
                  (ltb_ℤ cfg.default_ttl (pos 20) || ltb_ℤ (pos 86400) cfg.default_ttl)) [
                    | inl w ↦ rw w (
                      guarded cfg t,
                      known-IsPolicy cfg.autocreate_policy u,
                      no_items-cons cfg.allowed_domains v,
                      bounds_outside cfg.default_ttl w,
                    )
                    | inr w ↦ rw w (
                      refl,
                      guarded cfg t,
                      known-IsPolicy cfg.autocreate_policy u,
                      (no_items-cons cfg.allowed_domains v, filled),
                      bounds-IsTtl cfg.default_ttl w,
                    )
                  ])
        ])
      ])
    ]
