-- ===== src/Network/Valid.antt =====
-- Which reports validateInput lets through, told without its loops.
use mathlib.Core.Option.{some-injective, none-ne-some}
use olimpo.Common.{
  ℕ, ◌≡◌, ◌↔◌, ◌⊎◌, refl, inl, inr, Bool, true, false, ◌&&◌, Option, none, some, List, [], ◌∷◌,
  nat_eq, text_eq, Text, arith, if◌then◌else◌, ℤ, pos, negsuc, All, Bool-cases,
}
use olimpo.Errors.{NetworkError}
use olimpo.Text.{trim_space, is_empty}
use olimpo.Network.Address.{Prefix, contains, parse_addr4}
use olimpo.Network.Wan.{WanInput}
use olimpo.Network.Input.{
  SegmentInput, ReportInput, parse_prefix4, when, validate_wans, bad_vlan, check_gateway,
  check_subnet, validate_network, validate_networks, is_nil, validate_input,
}
use olimpo.Network.Checks.{first_error-none, when-none, AreNew-nil, pair, validate_wans-none}
use olimpo.Network.ReportRules.{IsValidNetwork, IsValidReport, IsVlan, IsSubnet}

bad_vlan-none : (v : Option ℤ) → (bad_vlan v ≡ false) ↔ IsVlan v
bad_vlan-none none = (λ h. tt, λ h. refl)
bad_vlan-none (some (pos n)) = (λ h. (ground arith, ground arith), λ h. ground arith)
bad_vlan-none (some (negsuc n)) = (λ h. absurd (ground arith), λ h. absurd h)

check_gateway-none :
    (p : Prefix) (o : Option ℕ)
    → (check_gateway p o ≡ none) ↔ ((a : ℕ) × (o ≡ some a) × (contains p a ≡ true))
check_gateway-none p none = (λ h. absurd (ground arith), λ h. absurd (none-ne-some h.0 h.1))
check_gateway-none p (some a) = (
  λ h. (a, refl, ground (arith, (when-none _ _).0 h)),
  λ (b, e, t). (when-none _ _).1 (rw (some-injective a b e) (rw t refl)),
)

check_IsSubnet-none :
    (gateway : Text) (o : Option Prefix)
    → (check_subnet gateway o ≡ none) ↔ (
        (p : Prefix) × (o ≡ some p)
        × ((is_empty gateway ≡ true)
            ⊎ ((a : ℕ) × (parse_addr4 gateway ≡ some a) × (contains p a ≡ true))))
check_IsSubnet-none gateway none = (λ h. absurd (ground arith), λ h. absurd (none-ne-some h.0 h.1))
check_IsSubnet-none gateway (some p) = elim (Bool-cases (is_empty gateway)) [
  | inl t ↦ (λ h. (p, refl, inl t), λ h. rw t refl)
  | inr t ↦ (
    λ h. (p, refl, inr ((check_gateway-none p (parse_addr4 gateway)).0 (rw t at h))),
    λ (q, e, g).
        rw (t, some-injective p q e)
          (elim g [
            | inl u ↦ absurd (ground arith)
            | inr u ↦ (check_gateway-none q (parse_addr4 gateway)).1 u
          ]),
  )
]

IsSubnet-none :
    (cidr gateway : Text)
    → ((if is_empty (trim_space cidr) && is_empty (trim_space gateway)
          then none
          else check_subnet (trim_space gateway) (parse_prefix4 (trim_space cidr)))
        ≡ none)
      ↔ IsSubnet cidr gateway
IsSubnet-none cidr gateway =
    let c = check_IsSubnet-none (trim_space gateway) (parse_prefix4 (trim_space cidr)) in
    elim (Bool-cases (is_empty (trim_space cidr) && is_empty (trim_space gateway))) [
      | inl t ↦ (λ h. inl (ground arith, ground arith), λ h. rw t refl)
      | inr t ↦ (
        λ h. inr (c.0 (rw t at h)),
        λ h. rw t (elim h [ inl (a, b) ↦ absurd (ground arith) | inr u ↦ c.1 u ]),
      )
    ]

validate_network-none : (n : SegmentInput) → (validate_network n ≡ none) ↔ IsValidNetwork n
unfolding validate_network
validate_network-none n =
    let s = IsSubnet-none n.ipv4_cidr n.gateway_ipv4 in
    let v = bad_vlan-none n.vlan_id in
    let all = first_error-none (
      when (is_empty (trim_space n.name)) NetworkError.invalid_network_name
      ∷ when (bad_vlan n.vlan_id) NetworkError.invalid_vlan
      ∷ (if is_empty (trim_space n.ipv4_cidr) && is_empty (trim_space n.gateway_ipv4)
          then none
          else check_subnet (trim_space n.gateway_ipv4) (parse_prefix4 (trim_space n.ipv4_cidr)))
      ∷ []) in
    (
      λ h.
          let (a, (b, (c, u))) = all.0 h in ((when-none _ _).0 a, v.0 ((when-none _ _).0 b), s.0 c),
      λ (a, b, c). all.1 ((when-none _ _).1 a, ((when-none _ _).1 (v.1 b), (s.1 c, tt))),
    )

validate_networks-none :
    (ns : List SegmentInput) → (validate_networks ns ≡ none) ↔ All IsValidNetwork ns
unfolding validate_networks
validate_networks-none [] = (λ h. tt, λ h. refl)
validate_networks-none (n ∷ ns) =
    let both = pair (validate_network n) (validate_networks ns) in
    let one = validate_network-none n in
    let rest = validate_networks-none ns in
    (λ h. (one.0 (both.0 h).0, rest.0 (both.0 h).1), λ (a, b). both.1 (one.1 a, rest.1 b))

is_nil-nil : (ws : List WanInput) → (is_nil ws ≡ false) ↔ (¬ (ws ≡ []))
is_nil-nil [] = (λ h. absurd (ground arith), λ h. absurd (h refl))
is_nil-nil (w ∷ ws) = (λ h e. absurd (ground arith), λ h. refl)

-- A report passes validateInput exactly where it has an interface, every interface is named and
-- valid, no two share a name up to case and spaces, at most one is the default route, and every
-- network is named, with a VLAN from 1 to 4094 or none, and with a subnet that holds its gateway, or
-- without both.
pub validate_input-IsValidReport :
    (is_ipv6 : Text → Bool) (input : ReportInput)
    → (validate_input is_ipv6 input ≡ none) ↔ IsValidReport is_ipv6 input
unfolding validate_input
validate_input-IsValidReport is_ipv6 input =
    let all = first_error-none (
      when (is_nil input.wans) NetworkError.no_wan
      ∷ validate_wans is_ipv6 [] 0 input.wans
      ∷ validate_networks input.networks
      ∷ []) in
    let some_wan = is_nil-nil input.wans in
    let ws = validate_wans-none is_ipv6 [] 0 input.wans (omega arith) in
    let ns = validate_networks-none input.networks in
    (
      λ h.
          let (a, (b, (c, u))) = all.0 h in
          let (good, apart, new, few) = ws.0 b in
          (some_wan.0 ((when-none _ _).0 a), good, apart, omega arith, ns.0 c),
      λ (a, good, apart, few, c). all.1 (
        (when-none _ _).1 (some_wan.1 a),
        (ws.1 (good, apart, AreNew-nil input.wans, omega arith), (ns.1 c, tt)),
      ),
    )
