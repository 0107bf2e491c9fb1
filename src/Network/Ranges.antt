-- ===== src/Network/Ranges.antt =====
-- The size of what the parser of IPv4 addresses reads, and classifyIPv4 against the table of Scopes.
use mathlib.Core.Option.{some-injective, none-ne-some}
use olimpo.Common.{
  ℕ, ◌+◌, ◌-◌, ◌*◌, ◌^◌, ◌<◌, ◌≡◌, refl, inl, inr, Bool, ◌&&◌, ◌||◌, Option, none, some, List, [],
  ◌∷◌, ltb, ◌==◌, nat_eq, Text, arith, if◌then◌else◌, All, length, Bool-cases,
}
use olimpo.Model.{AddressScope}
use olimpo.Text.{trim_space, is_empty}
use olimpo.Network.Address.{
  dotted, Scan, scan, read_byte, assemble, is_digit, parse_ipv4, classify_ipv4, classified,
}
use olimpo.Network.Scopes.{reserved, look_up, scope_of-look_up}

-- The octets read so far are bytes.
abbrev AreBytes : Scan → Type 0
AreBytes r = All (λ x. x < 256) r.octets × (r.value < 256)

abbrev Readable : Option Scan → Type 0
Readable none = Unit
Readable (some r) = AreBytes r

read_byte-Readable : (r : Scan) (c : ℕ) (last : Bool) → AreBytes r → Readable (read_byte r c last)
unfolding read_byte
read_byte-Readable r c last h = elim (Bool-cases (is_digit c)) [
  | inl t ↦
      rw t
        (elim (Bool-cases ((r.digits == 1 && r.value == 0) || ltb 255 (r.value * 10 + (c - 48)))) [
          | inl u ↦ rw u tt
          | inr u ↦ rw u (h.0, ground arith)
        ])
  | inr t ↦ rw t (elim (Bool-cases (c == 46)) [
    | inl v ↦ rw v (elim (Bool-cases (r.digits == 0 || last || length r.octets == 3)) [
      | inl u ↦ rw u tt
      | inr u ↦ rw u ((h.1, h.0), omega arith)
    ])
    | inr v ↦ rw v tt
  ])
]

assemble_small :
    (octets : List ℕ) (d n : ℕ)
    → All (λ x. x < 256) octets
    → d < 256
    → assemble octets d ≡ some n
    → n < 2 ^ 32
assemble_small [] d n h k e = absurd (none-ne-some n e)
assemble_small (c ∷ []) d n h k e = absurd (none-ne-some n e)
assemble_small (c ∷ b ∷ []) d n h k e = absurd (none-ne-some n e)
assemble_small (c ∷ b ∷ a ∷ []) d n h k e =
    rw (← some-injective (dotted a b c d) n e) (omega (arith, h.0, h.1.0, h.1.1.0))
assemble_small (c ∷ b ∷ a ∷ x ∷ xs) d n h k e = absurd (none-ne-some n e)

scan_small : (o : Option Scan) (s : Text) (n : ℕ) → Readable o → scan o s ≡ some n → n < 2 ^ 32
unfolding scan
scan_small none s n h e = absurd (none-ne-some n e)
scan_small (some r) [] n h e = assemble_small r.octets r.value n h.0 h.1 e
scan_small (some r) (c ∷ s) n h e =
    scan_small (read_byte r c (is_empty s)) s n (read_byte-Readable r c (is_empty s) h) e

-- An address that is read fits 32 bits.
parse_ipv4_small : (s : Text) (n : ℕ) → parse_ipv4 s ≡ some n → n < 2 ^ 32
unfolding parse_ipv4
parse_ipv4_small s n e = scan_small (some _) (trim_space s) n (tt, omega arith) e

abbrev pub judged : Text → Option ℕ → AddressScope
judged value none =
    if is_empty (trim_space value) then AddressScope.unknown else AddressScope.special
judged value (some a) = look_up reserved a

-- A text that is an IPv4 address, once spaces are cut off, has the scope of the first range of the
-- table that holds it, and is public where none does; a blank text is unknown, and any other is
-- special.
pub classify_ipv4-judged :
    (value : Text) → classify_ipv4 value ≡ judged value (parse_ipv4 (trim_space value))
unfolding classify_ipv4
classify_ipv4-judged value = go (parse_ipv4 (trim_space value)) refl
  where
    go : (o : Option ℕ) → parse_ipv4 (trim_space value) ≡ o → classified value o ≡ judged value o
    go none e = refl
    go (some a) e = scope_of-look_up a (parse_ipv4_small (trim_space value) a e)
