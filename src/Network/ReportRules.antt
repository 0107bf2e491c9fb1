-- ===== src/Network/ReportRules.antt =====
-- What makes a report valid, told without the loops of validateInput.
use olimpo.Common.{
  ℕ, ◌≤◌, ◌≡◌, ◌⊎◌, Bool, true, false, Option, none, some, List, [], ◌∷◌, nat_eq, text_eq, Text, ℤ,
  pos, negsuc, All, count,
}
use olimpo.Text.{trim_space, is_empty}
use olimpo.Network.Address.{Prefix, contains, parse_addr4, parse_ipv4, is_public_ipv4}
use olimpo.Network.Wan.{WanInput, normalized_role, role_primary, role_secondary, role_other}
use olimpo.Network.Input.{SegmentInput, ReportInput, parse_prefix4, interface_key}

abbrev pub IsBlank : Text → Type 0
IsBlank value = is_empty (trim_space value) ≡ true

-- Blank, or an IPv4 address.
abbrev pub IsAddressOrBlank : Text → Type 0
IsAddressOrBlank value = IsBlank value ⊎ ((a : ℕ) × (parse_addr4 (trim_space value) ≡ some a))

abbrev pub IsPublicOrBlank : Text → Type 0
IsPublicOrBlank value =
    IsBlank value ⊎ ((a : ℕ) × (parse_ipv4 value ≡ some a) × (is_public_ipv4 a ≡ true))

abbrev pub IsRole : Text → Type 0
IsRole role = (role ≡ role_primary) ⊎ (role ≡ role_secondary) ⊎ (role ≡ role_other)

-- What is asked of one interface.
abbrev pub IsValidWan : (Text → Bool) → WanInput → Type 0
IsValidWan is_ipv6 w =
    (is_empty (trim_space w.interface_name) ≡ false)
    × IsRole (normalized_role w.role)
    × IsAddressOrBlank w.ipv4
    × IsAddressOrBlank w.gateway_ipv4
    × (IsBlank w.ipv6 ⊎ (is_ipv6 (trim_space w.ipv6) ≡ true))
    × IsPublicOrBlank w.public_ipv4

-- No VLAN, or one from 1 to 4094.
abbrev pub IsVlan : Option ℤ → Type 0
IsVlan none = Unit
IsVlan (some (pos n)) = (1 ≤ n) × (n ≤ 4094)
IsVlan (some (negsuc n)) = ⊥

-- No addresses, or a subnet and a gateway within it, if any.
abbrev pub IsSubnet : Text → Text → Type 0
IsSubnet cidr gateway =
    (IsBlank cidr × IsBlank gateway)
    ⊎ ((p : Prefix) × (parse_prefix4 (trim_space cidr) ≡ some p)
        × (IsBlank gateway
            ⊎ ((a : ℕ) × (parse_addr4 (trim_space gateway) ≡ some a) × (contains p a ≡ true))))

abbrev pub IsValidNetwork : SegmentInput → Type 0
IsValidNetwork n =
    (is_empty (trim_space n.name) ≡ false) × IsVlan n.vlan_id × IsSubnet n.ipv4_cidr n.gateway_ipv4

-- No two interfaces have one name, up to case and spaces.
abbrev pub AreDistinct : List WanInput → Type 0
AreDistinct [] = Unit
AreDistinct (w ∷ ws) = All (λ v. ¬ (interface_key w ≡ interface_key v)) ws × AreDistinct ws

abbrev pub IsValidReport : (Text → Bool) → ReportInput → Type 0
IsValidReport is_ipv6 input =
    (¬ (input.wans ≡ []))
    × All (IsValidWan is_ipv6) input.wans
    × AreDistinct input.wans
    × (count (λ w. w.default_route) input.wans ≤ 1)
    × All IsValidNetwork input.networks
