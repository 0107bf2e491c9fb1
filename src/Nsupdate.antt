-- ===== src/Nsupdate.antt =====
-- products/hermes/internal/dns/updater.go: the scripts that NSUpdate runs nsupdate with; Run has the
-- running, over a temporary file.
pub mod Reading
pub mod Digits
pub mod Run
use olimpo.Common.{
  ℕ, ◌+◌, ◌/◌, ◌%◌, zero, suc, Bool, true, false, ◌||◌, List, [], ◌∷◌, ◌++◌, ◌==◌, text_eq, Text,
  if◌then◌else◌, ltb, ℤ, pos, negsuc,
}
use olimpo.Text.{text, trim_space, to_upper}

-- `%d`, on fuel: a number below 2 ^ 63 has at most nineteen digits.
unfoldable pub print_digits : ℕ → ℕ → Text → Text
print_digits zero n s = s
print_digits (suc fuel) n s =
    let longer = print_digits fuel (n / 10) ((48 + n % 10) ∷ s) in
    if ltb n 10 then (48 + n) ∷ s else longer

unfoldable pub print_int : ℤ → Text
unfolding print_digits
print_int (pos n) = print_digits 20 n []
print_int (negsuc n) = b'-' ∷ print_digits 20 (suc n) []

-- The newline of a script's line.
abbrev pub line : Text → Text
line s = s ++ 10 ∷ []

-- `%s.%s`
abbrev pub full_name : Text → Text → Text
full_name hostname zone = hostname ++ b'.' ∷ zone

-- `*.%s.%s`
abbrev pub wildcard_name : Text → Text → Text
wildcard_name hostname zone = b'*' ∷ b'.' ∷ full_name hostname zone

abbrev pub delete_line : Text → Text → Text
delete_line name record_type = line (text "update delete " ++ (name ++ 32 ∷ record_type))

abbrev pub add_line : Text → ℤ → Text → Text → Text
unfolding print_int
add_line name ttl record_type target =
    line (text "update add " ++ (name ++ 32 ∷ (print_int ttl ++ 32 ∷ (record_type ++ 32 ∷ target))))

abbrev pub opening : Text → Text → Text
opening server zone = line (text "server " ++ server) ++ line (text "zone " ++ zone)

abbrev pub type_a : Text
type_a = text "A"

abbrev pub type_aaaa : Text
type_aaaa = text "AAAA"

-- `deleteTypes`
unfoldable pub delete_types : Text → List Text
delete_types record_type =
    let normalized = to_upper (trim_space record_type) in
    if normalized == type_a || normalized == type_aaaa
    then type_a ∷ type_aaaa ∷ []
    else record_type ∷ []

-- The loop over them.
unfoldable pub delete_lines : Text → Text → Bool → List Text → Text
delete_lines hostname zone wildcard [] = []
delete_lines hostname zone wildcard (t ∷ ts) =
    delete_line (full_name hostname zone) t
    ++ ((if wildcard then delete_line (wildcard_name hostname zone) t else [])
        ++ delete_lines hostname zone wildcard ts)

-- buildUpsertScript
unfoldable pub build_upsert_script : Text → Text → Text → Text → Text → ℤ → Bool → Text
unfolding delete_types delete_lines print_int
build_upsert_script server hostname zone record_type target ttl wildcard =
    opening server zone
    ++ (delete_lines hostname zone wildcard (delete_types record_type)
        ++ (add_line (full_name hostname zone) ttl record_type target
            ++ ((if wildcard
                  then add_line (wildcard_name hostname zone) ttl record_type target
                  else [])
                ++ line (text "send"))))

-- Delete: the script that it runs
unfoldable pub build_delete_script : Text → Text → Text → Text → Bool → Text
build_delete_script server hostname zone record_type wildcard =
    opening server zone
    ++ (delete_line (full_name hostname zone) record_type
        ++ ((if wildcard then delete_line (wildcard_name hostname zone) record_type else [])
            ++ line (text "send")))
