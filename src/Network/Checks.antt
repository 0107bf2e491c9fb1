-- ===== src/Network/Checks.antt =====
-- The tests of validateInput, each against the rule of ReportRules that it stands for.
use mathlib.Core.Option.{some-injective, none-ne-some}
use olimpo.Common.{
  ℕ, ◌+◌, ◌≤◌, ◌≡◌, ◌↔◌, ◌⊎◌, refl, inl, inr, Bool, true, false, not, ◌&&◌, Option, none, some,
  List, [], ◌∷◌, ltb, ◌==◌, nat_eq, text_eq, text_beq_iff, Text, arith, All, count, Bool-cases,
}
use olimpo.Errors.{NetworkError}
use olimpo.Text.{trim_space, is_empty}
use olimpo.Network.Address.{
  parse_addr4, parse_ipv4, is_public_ipv4, is_public_ipv4_string, public_addr,
}
use olimpo.Network.Wan.{WanInput, normalized_role, role_primary, role_secondary, role_other}
use olimpo.Network.Input.{
  first_error, when, is_some, has_text, interface_key, routes_after, is_known_role, bad_addr4,
  wan_tests, validate_wan, validate_wans,
}
use olimpo.Network.ReportRules.{IsAddressOrBlank, IsPublicOrBlank, IsRole, IsValidWan, AreDistinct}

-- No test fails where none of them does.
pub first_error-none :
    (es : List (Option NetworkError)) → (first_error es ≡ none) ↔ All (λ e. e ≡ none) es
first_error-none [] = (λ h. tt, λ h. refl)
first_error-none (some e ∷ es) = (λ h. absurd (ground arith), λ h. absurd (ground (arith, h.0)))
first_error-none (none ∷ es) =
    (λ h. (refl, (first_error-none es).0 h), λ h. (first_error-none es).1 h.1)

pub when-none : (b : Bool) (e : NetworkError) → (when b e ≡ none) ↔ (b ≡ false)
when-none true e = (λ h. absurd (ground arith), λ h. absurd (ground arith))
when-none false e = (λ h. refl, λ h. refl)

given : (blank good : Bool) → ((not blank && not good) ≡ false) ↔ ((blank ≡ true) ⊎ (good ≡ true))
given true good = (λ h. inl refl, λ h. refl)
given false true = (λ h. inr refl, λ h. refl)
given false false = (λ h. absurd (ground arith), λ h. absurd (ground arith))

is_some-some : (o : Option ℕ) → (is_some o ≡ true) ↔ ((a : ℕ) × (o ≡ some a))
is_some-some none = (λ h. absurd (ground arith), λ h. absurd (none-ne-some h.0 h.1))
is_some-some (some a) = (λ h. (a, refl), λ h. refl)

public_addr-some :
    (o : Option ℕ) → (public_addr o ≡ true) ↔ ((a : ℕ) × (o ≡ some a) × (is_public_ipv4 a ≡ true))
public_addr-some none = (λ h. absurd (ground arith), λ h. absurd (none-ne-some h.0 h.1))
public_addr-some (some a) = (λ h. (a, refl, h), λ h. rw (some-injective a h.0 h.1) h.2)

bad_addr4-none : (value : Text) → (bad_addr4 value ≡ false) ↔ IsAddressOrBlank value
bad_addr4-none value =
    let g = given (is_empty (trim_space value)) (is_some (parse_addr4 (trim_space value))) in
    let o = is_some-some (parse_addr4 (trim_space value)) in
    (
      λ h. elim (g.0 h) [ inl t ↦ inl t | inr t ↦ inr (o.0 t) ],
      λ h. elim h [ inl t ↦ g.1 (inl t) | inr t ↦ g.1 (inr (o.1 t)) ],
    )

bad_public-none :
    (value : Text)
    → ((not (is_empty (trim_space value)) && not (is_public_ipv4_string value)) ≡ false)
      ↔ IsPublicOrBlank value
unfolding is_public_ipv4_string
bad_public-none value =
    let g = given (is_empty (trim_space value)) (is_public_ipv4_string value) in
    let o = public_addr-some (parse_ipv4 value) in
    (
      λ h. elim (g.0 h) [ inl t ↦ inl t | inr t ↦ inr (o.0 t) ],
      λ h. elim h [ inl t ↦ g.1 (inl t) | inr t ↦ g.1 (inr (o.1 t)) ],
    )

known : (r : Text) → (not (is_known_role r) ≡ false) ↔ IsRole r
known r = (
  λ h. ground (
    arith,
    (text_beq_iff r role_primary),
    (text_beq_iff r role_secondary),
    (text_beq_iff r role_other),
  ),
  λ h. ground (
    arith,
    (text_beq_iff r role_primary),
    (text_beq_iff r role_secondary),
    (text_beq_iff r role_other),
  ),
)

module _ (is_ipv6 : Text → Bool) where
  validate_wan-none :
      (seen : List Text) (routes : ℕ) (w : WanInput)
      → (validate_wan is_ipv6 seen routes w ≡ none) ↔ (
          (has_text (interface_key w) seen ≡ false)
          × ((w.default_route && ltb 1 (routes + 1)) ≡ false)
          × IsValidWan is_ipv6 w)
  unfolding validate_wan
  validate_wan-none seen routes w =
      let g = given (is_empty (trim_space w.ipv6)) (is_ipv6 (trim_space w.ipv6)) in
      (
        λ h.
            let (n, (d, (m, (r, (a, (b, (c, (p, u)))))))) : All (λ e. e ≡ none)
                (wan_tests is_ipv6 seen routes w) =
              (first_error-none (wan_tests is_ipv6 seen routes w)).0 h in
            (
              (when-none _ _).0 d,
              (when-none _ _).0 m,
              (
                (when-none _ _).0 n,
                (known (normalized_role w.role)).0 ((when-none _ _).0 r),
                (bad_addr4-none w.ipv4).0 ((when-none _ _).0 a),
                (bad_addr4-none w.gateway_ipv4).0 ((when-none _ _).0 b),
                g.0 ((when-none _ _).0 c),
                (bad_public-none w.public_ipv4).0 ((when-none _ _).0 p),
              ),
            ),
        λ (d, m, (n, r, a, b, c, p)). (first_error-none (wan_tests is_ipv6 seen routes w)).1 (
          (when-none _ _).1 n,
          (
            (when-none _ _).1 d,
            (
              (when-none _ _).1 m,
              (
                (when-none _ _).1 ((known (normalized_role w.role)).1 r),
                (
                  (when-none _ _).1 ((bad_addr4-none w.ipv4).1 a),
                  (
                    (when-none _ _).1 ((bad_addr4-none w.gateway_ipv4).1 b),
                    (
                      (when-none _ _).1 (g.1 c),
                      ((when-none _ _).1 ((bad_public-none w.public_ipv4).1 p), tt),
                    ),
                  ),
                ),
              ),
            ),
          ),
        ),
      )

-- A key is new among a longer list where it is not the added one and new before.
has_text-cons :
    (key k : Text) (seen : List Text)
    → (has_text key (k ∷ seen) ≡ false) ↔ ((¬ (k ≡ key)) × (has_text key seen ≡ false))
has_text-cons key k seen = (
  λ h. (λ e. absurd (ground (arith, (text_beq_iff k key).1 e)), ground arith),
  λ (a, b). elim (Bool-cases (k == key)) [
    | inl t ↦ absurd (a ((text_beq_iff k key).0 t))
    | inr t ↦ ground arith
  ],
)

abbrev pub AreNew : List Text → List WanInput → Type 0
AreNew seen ws = All (λ v. has_text (interface_key v) seen ≡ false) ws

AreNew-cons :
    (k : Text) (seen : List Text) (ws : List WanInput)
    → AreNew (k ∷ seen) ws ↔ (All (λ v. ¬ (k ≡ interface_key v)) ws × AreNew seen ws)
AreNew-cons k seen [] = (λ h. (tt, tt), λ h. tt)
AreNew-cons k seen (w ∷ ws) =
    let one = has_text-cons (interface_key w) k seen in
    let rest = AreNew-cons k seen ws in
    (
      λ (a, b). let (x, y) = one.0 a in let (u, v) = rest.0 b in ((x, u), (y, v)),
      λ ((x, u), (y, v)). (one.1 (x, y), rest.1 (u, v)),
    )

pub AreNew-nil : (ws : List WanInput) → AreNew [] ws
AreNew-nil [] = tt
AreNew-nil (w ∷ ws) = (refl, AreNew-nil ws)

pub pair :
    (a b : Option NetworkError) → (first_error (a ∷ b ∷ []) ≡ none) ↔ ((a ≡ none) × (b ≡ none))
pair none none = (λ h. (refl, refl), λ h. refl)
pair none (some e) = (λ h. absurd (ground arith), λ h. absurd (ground (arith, h.1)))
pair (some e) b = (λ h. absurd (ground arith), λ h. absurd (ground (arith, h.0)))

module _ (is_ipv6 : Text → Bool) where
  pub validate_wans-none :
      (seen : List Text) (routes : ℕ) (ws : List WanInput)
      → routes ≤ 1
      → (validate_wans is_ipv6 seen routes ws ≡ none) ↔ (
          All (IsValidWan is_ipv6) ws
          × AreDistinct ws
          × AreNew seen ws
          × (routes + count (λ w. w.default_route) ws ≤ 1))
  unfolding validate_wans count
  validate_wans-none seen routes [] low = (λ h. (tt, tt, tt, ground arith), λ h. refl)
  validate_wans-none seen routes (w ∷ ws) low =
      let both =
        pair (validate_wan is_ipv6 seen routes w)
          (validate_wans is_ipv6 (interface_key w ∷ seen) (routes_after routes w) ws) in
      let one = validate_wan-none is_ipv6 seen routes w in
      let news = AreNew-cons (interface_key w) seen ws in
      (
        λ h.
            let (a, b) = both.0 h in
            let (fresh, lone, valid) = one.0 a in
            let (good, apart, new, few) =
              (validate_wans-none (interface_key w ∷ seen) (routes_after routes w) ws
                  (ground arith)).0
                b in
            let (other, old) = news.0 new in
            ((valid, good), (other, apart), (fresh, old), ground arith),
        λ ((valid, good), (other, apart), (fresh, old), few). both.1 (
          one.1 (fresh, ground arith, valid),
          (validate_wans-none (interface_key w ∷ seen) (routes_after routes w) ws (ground arith)).1
              (good, apart, news.1 (other, old), ground arith),
        ),
      )
