-- ===== src/Network/Wan.antt =====
-- buildWAN of service.go, and what it derives from the two addresses of an interface. Its error is
-- always nil, so the model returns the row.
use olimpo.Common.{
  ℕ, Bool, true, false, not, ◌&&◌, ◌||◌, Option, none, some, ◌==◌, nat_eq, Text, if◌then◌else◌,
}
use olimpo.Model.{NetworkWan, AddressScope, NatState, PublicIpSource}
use olimpo.Text.{text, trim_space, to_lower, is_empty}
use olimpo.Network.Address.{parse_ipv4, is_public_ipv4, is_public_ipv4_string, classify_ipv4}

-- WANInput
pub record WanInput : Type 0 where
  pub interface_name : Text
  pub role : Text
  pub default_route : Bool
  pub ipv4 : Text
  pub gateway_ipv4 : Text
  pub ipv6 : Text
  pub public_ipv4 : Text

-- The WANRole constants
abbrev pub role_primary : Text
role_primary = text "primary"

abbrev pub role_secondary : Text
role_secondary = text "secondary"

abbrev pub role_other : Text
role_other = text "other"

-- normalizedRole
unfoldable pub normalized_role : Text → Text
normalized_role role = let r = to_lower (trim_space role) in if is_empty r then role_other else r

-- The observed address and where it comes from.
unfoldable pub observe : Text → WanInput → Text × PublicIpSource
unfolding is_public_ipv4_string
observe server_observed_ip input =
    let probed = trim_space input.public_ipv4 in
    if not (is_empty probed)
    then (probed, PublicIpSource.agent_probe)
    else if input.default_route && is_public_ipv4_string server_observed_ip
    then (trim_space server_observed_ip, PublicIpSource.server_peer)
    else (probed, PublicIpSource.none)

-- The derived columns.
pub record Nat : Type 0 where
  pub nat_state : NatState
  pub upstream_nat : Bool
  pub double_nat : Bool
  pub cgnat : Bool
  pub public_ip_match : Option Bool

abbrev pub nat_before : AddressScope → Nat
nat_before AddressScope.cgnat = record {
  nat_state = NatState.cgnat;
  upstream_nat = true;
  double_nat = false;
  cgnat = true;
  public_ip_match = none;
}
nat_before _ = record {
  nat_state = NatState.unknown;
  upstream_nat = false;
  double_nat = false;
  cgnat = false;
  public_ip_match = none;
}

-- The switch
abbrev pub nat_switch : AddressScope → Bool → ℕ → Nat → Nat
nat_switch AddressScope.public same observed n = record n {
  nat_state = if same then NatState.direct else NatState.public_mismatch;
}
nat_switch AddressScope.private same observed n =
    if is_public_ipv4 observed
    then record n { nat_state = NatState.double_nat; upstream_nat = true; double_nat = true }
    else n
nat_switch AddressScope.cgnat same observed n = record n {
  nat_state = NatState.cgnat;
  upstream_nat = true;
  cgnat = true;
}
nat_switch _ same observed n = n

abbrev pub nat_compared : AddressScope → Option ℕ → Option ℕ → Nat → Nat
nat_compared scope (some l) (some o) n =
    nat_switch scope (l == o) o (record n { public_ip_match = some (l == o) })
nat_compared scope none o n = n
nat_compared scope (some l) none n = n

unfoldable pub nat_of : AddressScope → Text → Text → Nat
unfolding parse_ipv4 is_public_ipv4
nat_of scope local observed =
    if is_empty local || is_empty observed
    then nat_before scope
    else nat_compared scope (parse_ipv4 local) (parse_ipv4 observed) (nat_before scope)

-- buildWAN
unfoldable pub build_wan : ℕ → Text → WanInput → ℕ → NetworkWan
unfolding observe nat_of classify_ipv4 normalized_role
build_wan device_id server_observed_ip input id =
    let local = trim_space input.ipv4 in
    let seen : Text × PublicIpSource = observe server_observed_ip input in
    let scope = classify_ipv4 local in
    let nat = nat_of scope local seen.0 in
    record {
      id = id;
      device_id = device_id;
      interface_name = trim_space input.interface_name;
      role = normalized_role input.role;
      default_route = input.default_route;
      ipv4 = local;
      gateway_ipv4 = trim_space input.gateway_ipv4;
      ipv6 = trim_space input.ipv6;
      observed_public_ipv4 = seen.0;
      public_ip_source = seen.1;
      address_scope = scope;
      nat_state = nat.nat_state;
      upstream_nat = nat.upstream_nat;
      double_nat = nat.double_nat;
      cgnat = nat.cgnat;
      public_ip_match = nat.public_ip_match;
    }
