-- ===== src/Network/Input.antt =====
-- validateInput of service.go: what a report must be before anything is stored. `is_ipv6` says which
-- texts `netip.ParseAddr` reads as an IPv6 address.
use olimpo.Common.{
  ℕ, ◌+◌, ◌-◌, ◌*◌, Bool, true, false, not, ◌&&◌, ◌||◌, Option, none, some, List, [], ◌∷◌, ltb, leb,
  ◌==◌, nat_eq, text_eq, Text, if◌then◌else◌, ℤ, pos, ltb_ℤ,
}
use olimpo.Errors.{NetworkError}
use olimpo.Text.{trim_space, to_lower, is_empty}
use olimpo.Network.Address.{Prefix, contains, parse_addr4, is_public_ipv4_string, is_digit}
use olimpo.Network.Wan.{WanInput, normalized_role, role_primary, role_secondary, role_other}

-- SegmentInput
pub record SegmentInput : Type 0 where
  pub name : Text
  pub vlan_id : Option ℤ
  pub ipv4_cidr : Text
  pub gateway_ipv4 : Text
  pub purpose : Text

-- ReportInput
pub record ReportInput : Type 0 where
  pub wans : List WanInput
  pub networks : List SegmentInput

-- What stands before the last slash, and after it: here, where the rest has none.
abbrev pub cut_here : ℕ → Text → Option (Text × Text) → Option (Text × Text)
cut_here c s none = if c == b'/' then some ([], s) else none
cut_here c s (some (before, after)) = some (c ∷ before, after)

unfoldable pub split_last_slash : Text → Option (Text × Text)
split_last_slash [] = none
split_last_slash (c ∷ s) = cut_here c s (split_last_slash s)

-- `strconv.Atoi` on digits alone
unfoldable pub decimal : ℕ → Text → Option ℕ
decimal n [] = some n
decimal n (c ∷ s) = let rest = decimal (n * 10 + (c - 48)) s in if is_digit c then rest else none

-- The length of a prefix: no sign, no leading zero, at most 32.
abbrev pub at_most_32 : Option ℕ → Option ℕ
at_most_32 none = none
at_most_32 (some n) = if leb n 32 then some n else none

unfoldable pub prefix_bits : Text → Option ℕ
unfolding decimal
prefix_bits [] = none
prefix_bits (c ∷ []) = at_most_32 (decimal 0 (c ∷ []))
prefix_bits (c ∷ d ∷ s) =
    let bits = at_most_32 (decimal 0 (c ∷ d ∷ s)) in if ltb c b'1' || ltb b'9' c then none else bits

abbrev pub make_prefix : Option ℕ → Option ℕ → Option Prefix
make_prefix (some base) (some bits) = some record { base = base; bits = bits }
make_prefix _ _ = none

abbrev pub prefix_of : Option (Text × Text) → Option Prefix
prefix_of none = none
prefix_of (some (address, bits)) = make_prefix (parse_addr4 address) (prefix_bits bits)

-- `netip.ParsePrefix`, where the result is an IPv4 prefix
unfoldable pub parse_prefix4 : Text → Option Prefix
unfolding split_last_slash parse_addr4 prefix_bits
parse_prefix4 s = prefix_of (split_last_slash s)

-- The first error of the tests in turn, or `none` for nil.
abbrev pub first_error : List (Option NetworkError) → Option NetworkError
first_error [] = none
first_error (some e ∷ rest) = some e
first_error (none ∷ rest) = first_error rest

abbrev pub when : Bool → NetworkError → Option NetworkError
when true e = some e
when false e = none

abbrev pub is_some {ℓ} : {A : Type ℓ} → Option A → Bool
is_some none = false
is_some (some a) = true

abbrev pub has_text : Text → List Text → Bool
has_text key [] = false
has_text key (k ∷ ks) = k == key || has_text key ks

abbrev pub interface_key : WanInput → Text
interface_key w = to_lower (trim_space w.interface_name)

-- `defaultRoutes++`
abbrev pub routes_after : ℕ → WanInput → ℕ
routes_after n w = if w.default_route then n + 1 else n

abbrev pub is_known_role : Text → Bool
is_known_role role = role == role_primary || role == role_secondary || role == role_other

-- A value that is given, but is no IPv4 address.
abbrev pub bad_addr4 : Text → Bool
bad_addr4 value =
    not (is_empty (trim_space value)) && not (is_some (parse_addr4 (trim_space value)))

module _ (is_ipv6 : Text → Bool) where
  -- The tests of the loop over the WANs, in turn.
  abbrev pub wan_tests : List Text → ℕ → WanInput → List (Option NetworkError)
  wan_tests seen routes w =
      when (is_empty (trim_space w.interface_name)) NetworkError.invalid_interface
      ∷ when (has_text (interface_key w) seen) NetworkError.duplicate_interface
      ∷ when (w.default_route && ltb 1 (routes + 1)) NetworkError.multiple_default_routes
      ∷ when (not (is_known_role (normalized_role w.role))) NetworkError.invalid_wan_role
      ∷ when (bad_addr4 w.ipv4) NetworkError.invalid_ip_address
      ∷ when (bad_addr4 w.gateway_ipv4) NetworkError.invalid_ip_address
      ∷ when (not (is_empty (trim_space w.ipv6)) && not (is_ipv6 (trim_space w.ipv6)))
          NetworkError.invalid_ip_address
      ∷ when
          (not (is_empty (trim_space w.public_ipv4)) && not (is_public_ipv4_string w.public_ipv4))
          NetworkError.invalid_public_ipv4
      ∷ []

  unfoldable pub validate_wan : List Text → ℕ → WanInput → Option NetworkError
  unfolding parse_addr4 is_public_ipv4_string normalized_role
  validate_wan seen routes w = first_error (wan_tests seen routes w)

  unfoldable pub validate_wans : List Text → ℕ → List WanInput → Option NetworkError
  unfolding validate_wan
  validate_wans seen routes [] = none
  validate_wans seen routes (w ∷ ws) = first_error (
      validate_wan seen routes w
      ∷ validate_wans (interface_key w ∷ seen) (routes_after routes w) ws
      ∷ [])

abbrev pub bad_vlan : Option ℤ → Bool
bad_vlan none = false
bad_vlan (some v) = ltb_ℤ v (pos 1) || ltb_ℤ (pos 4094) v

abbrev pub check_gateway : Prefix → Option ℕ → Option NetworkError
check_gateway p none = some NetworkError.invalid_ip_address
check_gateway p (some a) = when (not (contains p a)) NetworkError.invalid_gateway

abbrev pub check_subnet : Text → Option Prefix → Option NetworkError
check_subnet gateway none = some NetworkError.invalid_cidr
check_subnet gateway (some p) =
    if is_empty gateway then none else check_gateway p (parse_addr4 gateway)

-- The body of the loop over the networks.
unfoldable pub validate_network : SegmentInput → Option NetworkError
unfolding contains parse_addr4 parse_prefix4
validate_network n = first_error (
    when (is_empty (trim_space n.name)) NetworkError.invalid_network_name
    ∷ when (bad_vlan n.vlan_id) NetworkError.invalid_vlan
    ∷ (if is_empty (trim_space n.ipv4_cidr) && is_empty (trim_space n.gateway_ipv4)
        then none
        else check_subnet (trim_space n.gateway_ipv4) (parse_prefix4 (trim_space n.ipv4_cidr)))
    ∷ [])

unfoldable pub validate_networks : List SegmentInput → Option NetworkError
unfolding validate_network
validate_networks [] = none
validate_networks (n ∷ ns) = first_error (validate_network n ∷ validate_networks ns ∷ [])

abbrev pub is_nil {ℓ} : {A : Type ℓ} → List A → Bool
is_nil [] = true
is_nil (x ∷ xs) = false

-- validateInput: `none` is nil
unfoldable pub validate_input : (Text → Bool) → ReportInput → Option NetworkError
unfolding validate_wans validate_networks
validate_input is_ipv6 input = first_error (
    when (is_nil input.wans) NetworkError.no_wan
    ∷ validate_wans is_ipv6 [] 0 input.wans
    ∷ validate_networks input.networks
    ∷ [])
