-- ===== src/Keys.antt =====
-- products/hermes/internal/security/apikey.go: keys, their identifiers and their hashes. SHA-256 is a
-- parameter; the bytes that rand.Read fills are arguments, `none` where it fails.
pub mod Base64
pub mod RoundTrip
use olimpo.Common.{
  ℕ, Bool, true, false, not, ◌≡◌, Option, none, some, List, [], ◌∷◌, ◌++◌, ◌==◌, nat_eq, text_eq,
  Text, length, if◌then◌else◌,
}
use olimpo.Errors.{Error, entropy, Result, ok, err}
use olimpo.Text.{text, to_lower, hex_decode, hex_encode, has_length}
use olimpo.Keys.Base64.{base64_encode, base64_decode}

abbrev pub ddns_key_prefix : Text
ddns_key_prefix = text "hddns_"

abbrev pub agent_key_prefix : Text
agent_key_prefix = text "hagent_"

abbrev pub enrollment_key_prefix : Text
enrollment_key_prefix = text "henroll_"

pub record GeneratedKey : Type 0 where
  pub id : Text
  pub plaintext : Text
  pub hash : Text

-- strings.HasPrefix, then strings.TrimPrefix
unfoldable pub after_prefix : Text → Text → Option Text
after_prefix s [] = some s
after_prefix [] (p ∷ ps) = none
after_prefix (c ∷ s) (p ∷ ps) = if c == p then after_prefix s ps else none

abbrev in_front : ℕ → Option (Text × Text) → Option (Text × Text)
in_front c none = none
in_front c (some (a, b)) = some (c ∷ a, b)

-- strings.SplitN(rest, ".", 2), where it yields two parts
unfoldable pub split_dot : Text → Option (Text × Text)
split_dot [] = none
split_dot (c ∷ s) = let rest = split_dot s in if c == 46 then some ([], s) else in_front c rest

abbrev pub is_hex : Option (List ℕ) → Bool
is_hex none = false
is_hex (some bytes) = true

abbrev pub parse_parts : Option (Text × Text) → Option Text
parse_parts none = none
parse_parts (some (first, second)) =
    let id = to_lower first in
    if not (length id == 16)
    then none
    else if not (is_hex (hex_decode id))
    then none
    else if not (has_length (base64_decode second) 32)
    then none
    else some id

abbrev pub parse_rest : Option Text → Option Text
parse_rest none = none
parse_rest (some rest) = parse_parts (split_dot rest)

-- parseKeyID
unfoldable pub parse_key_id : Text → Text → Option Text
parse_key_id key prefix = parse_rest (after_prefix key prefix)

-- ParseAgentKeyID, ParseEnrollmentKeyID
abbrev pub parse_agent_key_id : Text → Option Text
parse_agent_key_id key = parse_key_id key agent_key_prefix

abbrev pub parse_enrollment_key_id : Text → Option Text
parse_enrollment_key_id key = parse_key_id key enrollment_key_prefix

module _ (sum256 : List ℕ → List ℕ) where
  -- HashAPIKey
  unfoldable pub hash_api_key : Text → Text
  hash_api_key key = hex_encode (sum256 key)

  -- VerifyAPIKey: subtle.ConstantTimeCompare answers 1 for equal bytes.
  unfoldable pub verify_api_key : Text → Text → Bool
  unfolding hash_api_key
  verify_api_key plain expected =
      let actual = hash_api_key plain in
      if not (length actual == length expected) then false else actual == expected

  -- generateKey
  unfoldable pub generate_key : Text → Option (List ℕ) → Option (List ℕ) → Result Error GeneratedKey
  unfolding hash_api_key
  generate_key prefix none secret_raw = err entropy
  generate_key prefix (some id_raw) none = err entropy
  generate_key prefix (some id_raw) (some secret_raw) =
      let id = hex_encode id_raw in
      let plain = prefix ++ (id ++ 46 ∷ base64_encode secret_raw) in
      ok record { id = id; plaintext = plain; hash = hash_api_key plain }

  -- GenerateDDNSKey (and GenerateAPIKey), GenerateAgentKey, GenerateEnrollmentKey
  abbrev pub generate_ddns_key : Option (List ℕ) → Option (List ℕ) → Result Error GeneratedKey
  generate_ddns_key = generate_key ddns_key_prefix

  abbrev pub generate_agent_key : Option (List ℕ) → Option (List ℕ) → Result Error GeneratedKey
  generate_agent_key = generate_key agent_key_prefix

  abbrev pub generate_enrollment_key : Option (List ℕ) → Option (List ℕ) → Result Error GeneratedKey
  generate_enrollment_key = generate_key enrollment_key_prefix
