-- ===== src/Network/Flags.antt =====
-- What buildWAN derives: the state of the address translation, from the stored addresses alone.
use olimpo.Common.{
  ℕ, ◌≡◌, refl, inl, inr, Bool, true, false, ◌||◌, Option, none, some, [], ◌∷◌, ◌==◌, nat_eq, Text,
  arith, if◌then◌else◌, Bool-cases,
}
use olimpo.Model.{NetworkWan, AddressScope, NatState}
use olimpo.Text.{is_empty, trim_space}
use olimpo.Network.Address.{parse_ipv4, is_public_ipv4, classify_ipv4}
use olimpo.Network.Wan.{WanInput, Nat, nat_before, nat_compared, nat_of, build_wan, observe}

-- The state that the two addresses stand for.
abbrev pub verdict : AddressScope → Option ℕ → Option ℕ → NatState
verdict AddressScope.cgnat local observed = NatState.cgnat
verdict AddressScope.public (some l) (some o) =
    if l == o then NatState.direct else NatState.public_mismatch
verdict AddressScope.private (some l) (some o) =
    if is_public_ipv4 o then NatState.double_nat else NatState.unknown
verdict _ local observed = NatState.unknown

abbrev pub agreement : Option ℕ → Option ℕ → Option Bool
agreement (some l) (some o) = some (l == o)
agreement _ _ = none

abbrev pub is_double : NatState → Bool
is_double NatState.double_nat = true
is_double _ = false

abbrev pub is_carrier : NatState → Bool
is_carrier NatState.cgnat = true
is_carrier _ = false

abbrev pub Derived : AddressScope → Option ℕ → Option ℕ → Nat → Type 0
Derived scope local observed n =
    (n.nat_state ≡ verdict scope local observed)
    × (n.double_nat ≡ is_double n.nat_state)
    × (n.cgnat ≡ is_carrier n.nat_state)
    × (n.upstream_nat ≡ (n.double_nat || n.cgnat))
    × (n.public_ip_match ≡ agreement local observed)

nat_before-Derived :
    (scope : AddressScope) (l o : Option ℕ)
    → agreement l o ≡ none
    → Derived scope l o (nat_before scope)
nat_before-Derived scope (some l) (some o) h = absurd (ground arith)
nat_before-Derived AddressScope.public none o h = (refl, refl, refl, refl, refl)
nat_before-Derived AddressScope.private none o h = (refl, refl, refl, refl, refl)
nat_before-Derived AddressScope.cgnat none o h = (refl, refl, refl, refl, refl)
nat_before-Derived AddressScope.special none o h = (refl, refl, refl, refl, refl)
nat_before-Derived AddressScope.unknown none o h = (refl, refl, refl, refl, refl)
nat_before-Derived AddressScope.public (some l) none h = (refl, refl, refl, refl, refl)
nat_before-Derived AddressScope.private (some l) none h = (refl, refl, refl, refl, refl)
nat_before-Derived AddressScope.cgnat (some l) none h = (refl, refl, refl, refl, refl)
nat_before-Derived AddressScope.special (some l) none h = (refl, refl, refl, refl, refl)
nat_before-Derived AddressScope.unknown (some l) none h = (refl, refl, refl, refl, refl)

nat_compared-Derived :
    (scope : AddressScope) (l o : Option ℕ)
    → Derived scope l o (nat_compared scope l o (nat_before scope))
nat_compared-Derived scope none o = nat_before-Derived scope none o refl
nat_compared-Derived scope (some l) none = nat_before-Derived scope (some l) none refl
nat_compared-Derived AddressScope.public (some l) (some o) = elim (Bool-cases (l == o)) [
  | inl t ↦ rw t (refl, refl, refl, refl, refl)
  | inr t ↦ rw t (refl, refl, refl, refl, refl)
]
nat_compared-Derived AddressScope.private (some l) (some o) = elim (Bool-cases (is_public_ipv4 o)) [
  | inl t ↦ rw t (refl, refl, refl, refl, refl)
  | inr t ↦ rw t (refl, refl, refl, refl, refl)
]
nat_compared-Derived AddressScope.cgnat (some l) (some o) = (refl, refl, refl, refl, refl)
nat_compared-Derived AddressScope.special (some l) (some o) = (refl, refl, refl, refl, refl)
nat_compared-Derived AddressScope.unknown (some l) (some o) = (refl, refl, refl, refl, refl)

parse_ipv4-blank : (s : Text) → is_empty s ≡ true → parse_ipv4 s ≡ none
unfolding parse_ipv4 trim_space
parse_ipv4-blank [] h = refl
parse_ipv4-blank (c ∷ s) h = absurd (ground arith)

agreement-none : (l o : Option ℕ) → (l ≡ none) → agreement l o ≡ none
agreement-none none o h = refl
agreement-none (some l) o h = absurd (ground arith)

agreement-none_right : (l o : Option ℕ) → (o ≡ none) → agreement l o ≡ none
agreement-none_right none o h = refl
agreement-none_right (some l) none h = refl
agreement-none_right (some l) (some o) h = absurd (ground arith)

nat_of-Derived :
    (scope : AddressScope) (local observed : Text)
    → Derived scope (parse_ipv4 local) (parse_ipv4 observed) (nat_of scope local observed)
unfolding nat_of
nat_of-Derived scope local observed = elim (Bool-cases (is_empty local)) [
  | inl t ↦ rw t (
      nat_before-Derived scope (parse_ipv4 local) (parse_ipv4 observed)
        (agreement-none _ _ (parse_ipv4-blank local t)))
  | inr t ↦ rw t (elim (Bool-cases (is_empty observed)) [
    | inl u ↦ rw u (
        nat_before-Derived scope (parse_ipv4 local) (parse_ipv4 observed)
          (agreement-none_right _ _ (parse_ipv4-blank observed u)))
    | inr u ↦ rw u (nat_compared-Derived scope (parse_ipv4 local) (parse_ipv4 observed))
  ])
]

-- A stored interface: its scope is that of its address, and the state of the translation, the
-- flags and the match are what the scope and the two stored addresses stand for.
abbrev pub IsConsistent : NetworkWan → Type 0
IsConsistent w =
    (w.address_scope ≡ classify_ipv4 w.ipv4)
    × (w.nat_state
        ≡ verdict w.address_scope (parse_ipv4 w.ipv4) (parse_ipv4 w.observed_public_ipv4))
    × (w.double_nat ≡ is_double w.nat_state)
    × (w.cgnat ≡ is_carrier w.nat_state)
    × (w.upstream_nat ≡ (w.double_nat || w.cgnat))
    × (w.public_ip_match ≡ agreement (parse_ipv4 w.ipv4) (parse_ipv4 w.observed_public_ipv4))

-- The columns that buildWAN derives of an interface are those that its stored addresses stand for,
-- for every input: its scope is that of its address; it is direct or mismatched where a public
-- address is the observed one or another, behind two translations where the address is private and
-- the observed one public, behind the carrier's where it is a shared one, and unknown otherwise; the
-- flags follow the state; and the match is told where both are IPv4 addresses.
pub build_wan-IsConsistent :
    (device_id : ℕ) (server : Text) (input : WanInput) (id : ℕ)
    → IsConsistent (build_wan device_id server input id)
unfolding build_wan
build_wan-IsConsistent device_id server input id =
    let (a, b, c, d, e) =
      nat_of-Derived (classify_ipv4 (trim_space input.ipv4)) (trim_space input.ipv4)
        (observe server input).0 in
    (refl, a, b, c, d, e)
