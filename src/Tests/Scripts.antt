-- ===== src/Tests/Scripts.antt =====
-- The scripts for nsupdate at concrete values.
use olimpo.Common.{◌≡◌, refl, [], ◌∷◌, ◌++◌, true, false, some, Text, pos}
use olimpo.Text.{text, trim_space, to_lower, to_upper, has_prefix}
use olimpo.Ddns.{split_managed_fqdn, can_autocreate}
use olimpo.Nsupdate.{build_upsert_script, type_a, type_aaaa}
use olimpo.Nsupdate.Reading.{
  lines_of, pieces, deletions, additions, names_of, build_upsert_script-lines,
}

build_upsert_script-lines_example :
    lines_of (
      build_upsert_script
        (text "127.0.0.1")
        (text "gate")
        (text "example.org")
        type_a
        (text "192.0.2.7")
        (pos 300)
        true)
    ≡ text "server 127.0.0.1"
      ∷ text "zone example.org"
      ∷ (deletions (names_of (text "gate") (text "example.org") true) (type_a ∷ type_aaaa ∷ [])
          ++ (additions
                (names_of (text "gate") (text "example.org") true)
                (pos 300)
                type_a
                (text "192.0.2.7")
              ++ text "send" ∷ []))
build_upsert_script-lines_example =
    build_upsert_script-lines (text "gate") (text "example.org") refl refl (text "127.0.0.1")
      (text "192.0.2.7") true (pos 300) true refl refl

-- A name with a line break in its label, which begins with the device's own name.
abbrev broken_label : Text
broken_label = text "udm-7-x" ++ 10 ∷ text "update delete victim"

broken_name_split :
    split_managed_fqdn (text "example.org" ∷ []) (broken_label ++ text ".example.org")
    ≡ some (broken_label, text "example.org")
unfolding split_managed_fqdn trim_space to_lower
broken_name_split = refl

broken_name_authorized : can_autocreate (text "device-prefix") (text "udm-7") broken_label ≡ true
unfolding can_autocreate trim_space to_lower has_prefix
broken_name_authorized = refl

-- Its script has a line of its own that removes the records of another host.
broken_script :
    lines_of (
      build_upsert_script
        (text "127.0.0.1")
        broken_label
        (text "example.org")
        type_a
        (text "192.0.2.7")
        (pos 300)
        false)
    ≡ text "server 127.0.0.1"
      ∷ text "zone example.org"
      ∷ text "update delete udm-7-x"
      ∷ text "update delete victim.example.org A"
      ∷ text "update delete udm-7-x"
      ∷ text "update delete victim.example.org AAAA"
      ∷ text "update add udm-7-x"
      ∷ text "update delete victim.example.org 300 A 192.0.2.7"
      ∷ text "send"
      ∷ []
unfolding build_upsert_script pieces trim_space to_upper
broken_script = refl
