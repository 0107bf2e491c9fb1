-- ===== src/Keys/Base64.antt =====
-- base64.RawURLEncoding of Go's encoding/base64: the alphabet of RFC 4648 for URLs, no padding.
-- Decoding skips line ends and ignores the last bits, as the package documents.
use olimpo.Common.{
  ℕ, ap, ap₂, ◌+◌, ◌-◌, ◌*◌, ◌/◌, ◌%◌, ◌<◌, ◌≡◌, refl, ◌&&◌, ◌||◌, Option, none, some, List, [],
  ◌∷◌, ltb, leb, ◌==◌, nat_eq, Text, if◌then◌else◌, All, arith,
}

unfoldable pub base64_char : ℕ → ℕ
base64_char d =
    if ltb d 26
    then d + 65
    else if ltb d 52
    then d + 71
    else if ltb d 62
    then d - 4
    else if d == 62
    then 45
    else 95

unfoldable pub base64_digit : ℕ → Option ℕ
base64_digit c =
    if leb 65 c && leb c 90
    then some (c - 65)
    else if leb 97 c && leb c 122
    then some (c - 71)
    else if leb 48 c && leb c 57
    then some (c + 4)
    else if c == 45
    then some 62
    else if c == 95
    then some 63
    else none

-- base64.RawURLEncoding.EncodeToString
unfoldable pub base64_encode : List ℕ → Text
unfolding base64_char
base64_encode [] = []
base64_encode (a ∷ []) = base64_char (a / 4) ∷ base64_char ((a % 4) * 16) ∷ []
base64_encode (a ∷ b ∷ []) =
    base64_char (a / 4) ∷ base64_char ((a % 4) * 16 + b / 16) ∷ base64_char ((b % 16) * 4) ∷ []
base64_encode (a ∷ b ∷ c ∷ s) =
    base64_char (a / 4)
    ∷ base64_char ((a % 4) * 16 + b / 16)
    ∷ base64_char ((b % 16) * 4 + c / 64)
    ∷ base64_char (c % 64)
    ∷ base64_encode s

abbrev one_byte : Option ℕ → Option ℕ → Option (List ℕ)
one_byte (some x) (some y) = some ((x * 4 + y / 16) ∷ [])
one_byte _ _ = none

abbrev two_bytes : Option ℕ → Option ℕ → Option ℕ → Option (List ℕ)
two_bytes (some x) (some y) (some z) = some ((x * 4 + y / 16) ∷ ((y % 16) * 16 + z / 4) ∷ [])
two_bytes _ _ _ = none

abbrev three_bytes : Option ℕ → Option ℕ → Option ℕ → Option ℕ → Option (List ℕ) → Option (List ℕ)
three_bytes (some x) (some y) (some z) (some w) (some rest) =
    some ((x * 4 + y / 16) ∷ ((y % 16) * 16 + z / 4) ∷ ((z % 4) * 64 + w) ∷ rest)
three_bytes _ _ _ _ _ = none

unfoldable pub decode_groups : Text → Option (List ℕ)
unfolding base64_digit
decode_groups [] = some []
decode_groups (a ∷ []) = none
decode_groups (a ∷ b ∷ []) = one_byte (base64_digit a) (base64_digit b)
decode_groups (a ∷ b ∷ c ∷ []) = two_bytes (base64_digit a) (base64_digit b) (base64_digit c)
decode_groups (a ∷ b ∷ c ∷ d ∷ s) =
    three_bytes (base64_digit a) (base64_digit b) (base64_digit c) (base64_digit d)
      (decode_groups s)

unfoldable pub skip_line_ends : Text → Text
skip_line_ends [] = []
skip_line_ends (c ∷ s) =
    let rest = skip_line_ends s in if c == 10 || c == 13 then rest else c ∷ rest

-- base64.RawURLEncoding.DecodeString
unfoldable pub base64_decode : Text → Option (List ℕ)
unfolding decode_groups skip_line_ends
base64_decode s = decode_groups (skip_line_ends s)

digit-char : (d : ℕ) → d < 64 → base64_digit (base64_char d) ≡ some d
unfolding base64_digit base64_char
digit-char d h = ground arith

char_stays : (d : ℕ) → 44 < base64_char d
unfolding base64_char
char_stays d = ground arith

skip_char :
    (d : ℕ) (s : Text) → skip_line_ends (base64_char d ∷ s) ≡ base64_char d ∷ skip_line_ends s
unfolding skip_line_ends
skip_char d s = ground (arith, char_stays d)

-- Bytes.
abbrev pub AllBytes : List ℕ → Type 0
AllBytes bytes = All (λ b. b < 256) bytes

nil_stays : skip_line_ends [] ≡ []
unfolding skip_line_ends
nil_stays = refl

pub cons_eq : {a b : ℕ} {s t : List ℕ} → a ≡ b → s ≡ t → a ∷ s ≡ b ∷ t
cons_eq e f = ap₂ ◌∷◌ e f

encode_stays : (s : List ℕ) → skip_line_ends (base64_encode s) ≡ base64_encode s
unfolding base64_encode
encode_stays [] = nil_stays
encode_stays (a ∷ []) = rw (skip_char (a / 4), skip_char ((a % 4) * 16), nil_stays) refl
encode_stays (a ∷ b ∷ []) =
    rw (skip_char (a / 4), skip_char ((a % 4) * 16 + b / 16), skip_char ((b % 16) * 4), nil_stays)
      refl
encode_stays (a ∷ b ∷ c ∷ s) =
    rw
      (
        skip_char (a / 4),
        skip_char ((a % 4) * 16 + b / 16),
        skip_char ((b % 16) * 4 + c / 64),
        skip_char (c % 64),
        encode_stays s,
      )
      refl

first_byte : (a b : ℕ) → b < 256 → (a / 4) * 4 + ((a % 4) * 16 + b / 16) / 16 ≡ a
first_byte a b h = omega arith

second_byte :
    (a b c : ℕ)
    → b < 256
    → c < 256
    → (((a % 4) * 16 + b / 16) % 16) * 16 + ((b % 16) * 4 + c / 64) / 4 ≡ b
second_byte a b c h k = omega arith

third_byte : (b c : ℕ) → c < 256 → (((b % 16) * 4 + c / 64) % 4) * 64 + c % 64 ≡ c
third_byte b c h = omega arith

last_byte : (a b : ℕ) → b < 256 → (((a % 4) * 16 + b / 16) % 16) * 16 + ((b % 16) * 4) / 4 ≡ b
last_byte a b h = omega arith

groups-encode : (s : List ℕ) → AllBytes s → decode_groups (base64_encode s) ≡ some s
unfolding base64_encode decode_groups
groups-encode [] h = refl
groups-encode (a ∷ []) h =
    rw (digit-char (a / 4) (omega arith), digit-char ((a % 4) * 16) (omega arith))
      (ap some (cons_eq (omega arith) refl))
groups-encode (a ∷ b ∷ []) h =
    rw
      (
        digit-char (a / 4) (omega arith),
        digit-char ((a % 4) * 16 + b / 16) (omega arith),
        digit-char ((b % 16) * 4) (omega arith),
      )
      (ap some (cons_eq (first_byte a b h.1.0) (cons_eq (last_byte a b h.1.0) refl)))
groups-encode (a ∷ b ∷ c ∷ s) h =
    rw
      (
        digit-char (a / 4) (omega arith),
        digit-char ((a % 4) * 16 + b / 16) (omega arith),
        digit-char ((b % 16) * 4 + c / 64) (omega arith),
        digit-char (c % 64) (omega arith),
        groups-encode s h.1.1.1,
      )
      (ap some (
        cons_eq (first_byte a b h.1.0)
          (cons_eq (second_byte a b c h.1.0 h.1.1.0) (cons_eq (third_byte b c h.1.1.0) refl))))

pub decode-encode : (s : List ℕ) → AllBytes s → base64_decode (base64_encode s) ≡ some s
unfolding base64_decode
decode-encode s h = rw (encode_stays s) (groups-encode s h)
