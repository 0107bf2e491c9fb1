-- ===== src/Keys/RoundTrip.antt =====
-- What a generated key says when it is read back.
use olimpo.Common.{
  ℕ, ◌+◌, ◌*◌, ◌/◌, ◌%◌, ◌<◌, ◌≡◌, refl, ◌∙◌, ap, true, false, not, Option, none, some, List, [],
  ◌∷◌, ◌++◌, Text, length, arith, ◌==◌, nat_eq, nat_beq, nat_beq_iff, text_eq, text_beq_iff,
  if◌then◌else◌,
}
use olimpo.Errors.{Error, Result, ok, err}
use olimpo.Text.{to_lower, lower, hex_decode, hex_encode, hex_digit, hex_char}
use olimpo.Keys.{
  GeneratedKey, after_prefix, split_dot, parse_rest, parse_parts, parse_key_id, hash_api_key,
  verify_api_key, generate_key, generate_agent_key, generate_enrollment_key, parse_agent_key_id,
  parse_enrollment_key_id,
}
use olimpo.Keys.Base64.{AllBytes, base64_encode, decode-encode, cons_eq}

hex_digit-char : (d : ℕ) → d < 16 → hex_digit (hex_char d) ≡ some d
unfolding hex_digit hex_char
hex_digit-char d h = ground arith

lower-hex_char : (d : ℕ) → d < 16 → lower (hex_char d) ≡ hex_char d
unfolding lower hex_char
lower-hex_char d h = ground arith

hex_char_apart : (d : ℕ) → nat_beq (hex_char d) 46 ≡ false
unfolding hex_char
hex_char_apart d = ground arith

length-hex_encode : (s : List ℕ) → length (hex_encode s) ≡ 2 * length s
unfolding hex_encode
length-hex_encode [] = refl
length-hex_encode (b ∷ s) = omega (arith, length-hex_encode s)

byte_digits : (b : ℕ) → b < 256 → (b / 16 < 16) × (b % 16 < 16) × ((b / 16) * 16 + b % 16 ≡ b)
byte_digits b h = (omega arith, omega arith, omega arith)

pub hex_decode-encode : (s : List ℕ) → AllBytes s → hex_decode (hex_encode s) ≡ some s
unfolding hex_decode hex_encode
hex_decode-encode [] h = refl
hex_decode-encode (b ∷ s) h =
    let (hi, lo, whole) = byte_digits b h.0 in
    rw (hex_digit-char (b / 16) hi, hex_digit-char (b % 16) lo, hex_decode-encode s h.1)
      (ap some (cons_eq whole refl))

to_lower-hex_encode : (s : List ℕ) → AllBytes s → to_lower (hex_encode s) ≡ hex_encode s
unfolding to_lower hex_encode
to_lower-hex_encode [] h = refl
to_lower-hex_encode (b ∷ s) h =
    let (hi, lo, _) = byte_digits b h.0 in
    rw (lower-hex_char (b / 16) hi, lower-hex_char (b % 16) lo, to_lower-hex_encode s h.1) refl

after_prefix-append : (p s : Text) → after_prefix (p ++ s) p ≡ some s
unfolding after_prefix
after_prefix-append [] s = refl
after_prefix-append (c ∷ p) s = rw (self c) (after_prefix-append p s)
  where
    self : (c : ℕ) → nat_beq c c ≡ true
    self c = ground arith

split_dot-hex : (b s : List ℕ) → split_dot (hex_encode b ++ 46 ∷ s) ≡ some (hex_encode b, s)
unfolding split_dot hex_encode
split_dot-hex [] s = refl
split_dot-hex (b ∷ bs) s =
    rw (hex_char_apart (b / 16), hex_char_apart (b % 16), split_dot-hex bs s) refl

-- What the parser and the check say of a generated key.
abbrev pub ReadsBack : (List ℕ → List ℕ) → Text → Result Error GeneratedKey → Type 0
ReadsBack sum256 prefix (ok key) =
    (parse_key_id key.plaintext prefix ≡ some key.id)
    × (verify_api_key sum256 key.plaintext key.hash ≡ true)
ReadsBack sum256 prefix (err e) = ⊥

pub accepts : (h : Text) → (if not (length h == length h) then false else h == h) ≡ true
accepts h = rw ((nat_beq_iff (length h) (length h)).1 refl, (text_beq_iff h h).1 refl) refl

module _ (id_raw secret_raw : List ℕ) (ids : AllBytes id_raw) (secrets : AllBytes secret_raw)
    (id_length : length id_raw ≡ 8) (secret_length : length secret_raw ≡ 32) where
  parse_parts-hex :
      parse_parts (some (hex_encode id_raw, base64_encode secret_raw)) ≡ some (hex_encode id_raw)
  parse_parts-hex =
      let sixteen : length (hex_encode id_raw) ≡ 16 = omega (arith, length-hex_encode id_raw) in
      rw
        (
          to_lower-hex_encode id_raw ids,
          sixteen,
          hex_decode-encode id_raw ids,
          decode-encode secret_raw secrets,
          secret_length,
        )
        refl

  parse-key :
      (p : Text)
      → parse_key_id (p ++ (hex_encode id_raw ++ 46 ∷ base64_encode secret_raw)) p
        ≡ some (hex_encode id_raw)
  unfolding parse_key_id
  parse-key p =
      ap parse_rest (after_prefix-append p (hex_encode id_raw ++ 46 ∷ base64_encode secret_raw))
      ∙ ap parse_parts (split_dot-hex id_raw (base64_encode secret_raw))
      ∙ parse_parts-hex

  -- A key generated from eight and thirty-two random bytes, under any prefix and with any digest,
  -- parses under that prefix to its own identifier, and is accepted against its own hash.
  pub generate_key-ReadsBack :
      (sum256 : List ℕ → List ℕ) (prefix : Text)
      → ReadsBack sum256 prefix (generate_key sum256 prefix (some id_raw) (some secret_raw))
  unfolding generate_key verify_api_key hash_api_key
  generate_key-ReadsBack sum256 prefix = (parse-key prefix, accepts (hex_encode (sum256 _)))

abbrev pub OtherKind : (Text → Option Text) → Result Error GeneratedKey → Type 0
OtherKind parse (ok key) = parse key.plaintext ≡ none
OtherKind parse (err e) = Unit

-- An agent key is no enrollment key and an enrollment key is no agent key, whatever bytes they are
-- generated from.
pub parse-generate_other :
    (sum256 : List ℕ → List ℕ) (id_raw secret_raw : Option (List ℕ))
    → OtherKind parse_enrollment_key_id (generate_agent_key sum256 id_raw secret_raw)
      × OtherKind parse_agent_key_id (generate_enrollment_key sum256 id_raw secret_raw)
unfolding generate_key parse_key_id after_prefix
parse-generate_other sum256 none b = (tt, tt)
parse-generate_other sum256 (some a) none = (tt, tt)
parse-generate_other sum256 (some a) (some b) = (refl, refl)
