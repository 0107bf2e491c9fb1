-- ===== src/Network/Address.antt =====
-- Addresses: what `netip.ParseAddr` and `netip.ParsePrefix` accept as IPv4, and isCGNAT, isPublicIPv4,
-- parseIPv4, isPublicIPv4String and classifyIPv4 of service.go. An address is its 32-bit number.
use olimpo.Common.{
  ℕ, suc, ◌+◌, ◌-◌, ◌*◌, ◌/◌, ◌^◌, Bool, false, not, ◌&&◌, ◌||◌, Option, none, some, List, [], ◌∷◌,
  ltb, leb, ◌==◌, nat_eq, text_eq, Text, if◌then◌else◌, length,
}
use olimpo.Model.{AddressScope}
use olimpo.Text.{trim_space, is_empty}

abbrev pub dotted : ℕ → ℕ → ℕ → ℕ → ℕ
dotted a b c d = ((a * 256 + b) * 256 + c) * 256 + d

abbrev pub is_digit : ℕ → Bool
is_digit c = leb b'0' c && leb c b'9'

-- The loop of netip's IPv4 parser: the octets read, last first, the value of the next one and the
-- number of its digits.
pub record Scan : Type 0 where
  pub octets : List ℕ
  pub value : ℕ
  pub digits : ℕ

-- A digit: no leading zero, and at most 255.
abbrev pub read_digit : Scan → ℕ → Option Scan
read_digit r d =
    if (r.digits == 1 && r.value == 0) || ltb 255 (r.value * 10 + d)
    then none
    else some record { octets = r.octets; value = r.value * 10 + d; digits = suc r.digits }

-- A dot: after a digit, before another byte, and not the fourth one.
abbrev pub read_dot : Scan → Bool → Option Scan
read_dot r last =
    if r.digits == 0 || last || length r.octets == 3
    then none
    else some record { octets = r.value ∷ r.octets; value = 0; digits = 0 }

unfoldable pub read_byte : Scan → ℕ → Bool → Option Scan
read_byte r c last =
    if is_digit c then read_digit r (c - 48) else if c == 46 then read_dot r last else none

abbrev pub assemble : List ℕ → ℕ → Option ℕ
assemble (c ∷ b ∷ a ∷ []) d = some (dotted a b c d)
assemble _ d = none

unfoldable pub scan : Option Scan → Text → Option ℕ
unfolding read_byte
scan none s = none
scan (some r) [] = assemble r.octets r.value
scan (some r) (c ∷ s) = scan (read_byte r c (is_empty s)) s

-- `netip.ParseAddr`, where the result is an IPv4 address
unfoldable pub parse_addr4 : Text → Option ℕ
unfolding scan
parse_addr4 s = scan (some record { octets = []; value = 0; digits = 0 }) s

-- parseIPv4
unfoldable pub parse_ipv4 : Text → Option ℕ
unfolding parse_addr4
parse_ipv4 value = parse_addr4 (trim_space value)

pub record Prefix : Type 0 where
  pub base : ℕ
  pub bits : ℕ

-- `prefix.Contains(addr)`, which masks both
unfoldable pub contains : Prefix → ℕ → Bool
contains p a = a / 2 ^ (32 - p.bits) == p.base / 2 ^ (32 - p.bits)

-- isCGNAT
abbrev pub cgnat_prefix : Prefix
cgnat_prefix = record { base = dotted 100 64 0 0; bits = 10 }

unfoldable pub is_cgnat : ℕ → Bool
unfolding contains
is_cgnat a = contains cgnat_prefix a

-- `addr.IsPrivate()`: RFC 1918
unfoldable pub is_private : ℕ → Bool
unfolding contains
is_private a =
    contains record { base = dotted 10 0 0 0; bits = 8 } a
    || contains record { base = dotted 172 16 0 0; bits = 12 } a
    || contains record { base = dotted 192 168 0 0; bits = 16 } a

-- IsLoopback, IsLinkLocalUnicast, IsMulticast and IsUnspecified
unfoldable pub is_local : ℕ → Bool
unfolding contains
is_local a =
    contains record { base = dotted 127 0 0 0; bits = 8 } a
    || contains record { base = dotted 169 254 0 0; bits = 16 } a
    || contains record { base = dotted 224 0 0 0; bits = 4 } a
    || a == 0

-- specialIPv4Prefixes
abbrev pub special_ipv4_prefixes : List Prefix
special_ipv4_prefixes =
    record { base = dotted 0 0 0 0; bits = 8 }
    ∷ record { base = dotted 192 0 0 0; bits = 24 }
    ∷ record { base = dotted 192 0 2 0; bits = 24 }
    ∷ record { base = dotted 198 18 0 0; bits = 15 }
    ∷ record { base = dotted 198 51 100 0; bits = 24 }
    ∷ record { base = dotted 203 0 113 0; bits = 24 }
    ∷ record { base = dotted 240 0 0 0; bits = 4 }
    ∷ []

abbrev pub any_contains : List Prefix → ℕ → Bool
unfolding contains
any_contains [] a = false
any_contains (p ∷ ps) a = contains p a || any_contains ps a

-- isPublicIPv4
unfoldable pub is_public_ipv4 : ℕ → Bool
unfolding is_private is_local is_cgnat contains
is_public_ipv4 a =
    not (is_private a || is_local a || is_cgnat a) && not (any_contains special_ipv4_prefixes a)

abbrev pub public_addr : Option ℕ → Bool
public_addr none = false
public_addr (some a) = is_public_ipv4 a

-- isPublicIPv4String
unfoldable pub is_public_ipv4_string : Text → Bool
unfolding parse_ipv4 is_public_ipv4
is_public_ipv4_string value = public_addr (parse_ipv4 value)

unfoldable pub scope_of : ℕ → AddressScope
unfolding is_cgnat is_private is_public_ipv4
scope_of a =
    if is_cgnat a
    then AddressScope.cgnat
    else if is_private a
    then AddressScope.private
    else if is_public_ipv4 a
    then AddressScope.public
    else AddressScope.special

abbrev pub classified : Text → Option ℕ → AddressScope
classified value none =
    if is_empty (trim_space value) then AddressScope.unknown else AddressScope.special
classified value (some a) = scope_of a

-- classifyIPv4
unfoldable pub classify_ipv4 : Text → AddressScope
unfolding parse_ipv4 scope_of
classify_ipv4 value = classified value (parse_ipv4 (trim_space value))
