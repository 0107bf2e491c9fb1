-- ===== src/Nsupdate/Reading.antt =====
-- What nsupdate reads in a script, line by line and word by word.
use mathlib.Core.List.{append_assoc}
use olimpo.Common.{
  zero, suc, ◌+◌, ◌/◌, ◌%◌, ltb, map, All, pos, negsuc, ℕ, ◌≡◌, refl, ap, ◌∙◌, inl, inr, Bool, true,
  false, not, ◌&&◌, List, [], ◌∷◌, ◌++◌, ◌==◌, nat_eq, text_eq, nat_beq_iff, Text, arith,
  if◌then◌else◌, ℤ, Bool-cases,
}
use olimpo.Text.{text, to_upper, trim_space}
use olimpo.Ddns.Update.{record_type_of}
use olimpo.Nsupdate.{
  line, full_name, wildcard_name, delete_line, add_line, type_a, type_aaaa, delete_types,
  delete_lines, print_int, print_digits, build_upsert_script,
}

-- The pieces of a text between two marks, where every piece ends with the mark.
abbrev pub onto : ℕ → List Text → List Text
onto c [] = (c ∷ []) ∷ []
onto c (s ∷ rest) = (c ∷ s) ∷ rest

unfoldable pub pieces : ℕ → Text → List Text
pieces mark [] = []
pieces mark (c ∷ s) = let rest = pieces mark s in if c == mark then [] ∷ rest else onto c rest

-- A text without the mark.
abbrev pub lacks : ℕ → Text → Bool
lacks mark [] = true
lacks mark (c ∷ s) = not (c == mark) && lacks mark s

abbrev pub Lacks : ℕ → Text → Type 0
Lacks mark s = lacks mark s ≡ true

pieces-piece :
    (mark : ℕ) (s rest : Text)
    → Lacks mark s
    → pieces mark (s ++ mark ∷ rest) ≡ s ∷ pieces mark rest
unfolding pieces
pieces-piece mark [] rest h = rw ((nat_beq_iff mark mark).1 refl) refl
pieces-piece mark (c ∷ s) rest h =
    let other : (c == mark) ≡ false = ground arith in
    let later : lacks mark s ≡ true = ground arith in
    rw (other, pieces-piece mark s rest later) refl

Lacks-append : (mark : ℕ) (s t : Text) → Lacks mark s → Lacks mark t → Lacks mark (s ++ t)
Lacks-append mark [] t h k = k
Lacks-append mark (c ∷ s) t h k =
    let other : (c == mark) ≡ false = ground arith in
    let later : lacks mark s ≡ true = ground arith in rw (other, Lacks-append mark s t later k) refl

-- A script is read as its lines, and the text after the last of them.
abbrev pub lines_of : Text → List Text
lines_of s = pieces 10 s

lines-line : (s rest : Text) → Lacks 10 s → lines_of (line s ++ rest) ≡ s ∷ lines_of rest
lines-line s rest h = rw (append_assoc s (10 ∷ []) rest) (pieces-piece 10 s rest h)

-- The names that a record is kept under.
abbrev pub names_of : Text → Text → Bool → List Text
names_of hostname zone wildcard =
    if wildcard
    then full_name hostname zone ∷ wildcard_name hostname zone ∷ []
    else full_name hostname zone ∷ []

abbrev pub delete_text : Text → Text → Text
delete_text name record_type = text "update delete " ++ (name ++ 32 ∷ record_type)

abbrev pub add_text : Text → ℤ → Text → Text → Text
add_text name ttl record_type target =
    text "update add " ++ (name ++ 32 ∷ (print_int ttl ++ 32 ∷ (record_type ++ 32 ∷ target)))

-- Each name loses its records of each of the types.
abbrev pub deletions : List Text → List Text → List Text
deletions names [] = []
deletions names (t ∷ ts) = map (λ n. delete_text n t) names ++ deletions names ts

-- Each name gets the record.
abbrev pub additions : List Text → ℤ → Text → Text → List Text
additions names ttl record_type target = map (λ n. add_text n ttl record_type target) names

Lacks-digits : (fuel n : ℕ) (s : Text) → Lacks 10 s → Lacks 10 (print_digits fuel n s)
unfolding print_digits
Lacks-digits zero n s h = h
Lacks-digits (suc fuel) n s h = elim (Bool-cases (ltb n 10)) [
  | inl t ↦ rw t (ground arith)
  | inr t ↦ rw t (Lacks-digits fuel (n / 10) ((48 + n % 10) ∷ s) (ground arith))
]

Lacks-print_int : (v : ℤ) → Lacks 10 (print_int v)
unfolding print_int
Lacks-print_int (pos n) = Lacks-digits 20 n [] refl
Lacks-print_int (negsuc n) = Lacks-digits 20 (suc n) [] refl

two_lines :
    (a b rest : Text)
    → Lacks 10 a
    → Lacks 10 b
    → lines_of ((line a ++ line b) ++ rest) ≡ a ∷ b ∷ lines_of rest
two_lines a b rest h k =
    ap lines_of (append_assoc (line a) (line b) rest)
    ∙ (lines-line a (line b ++ rest) h ∙ ap (◌∷◌ a) (lines-line b rest k))

sent : lines_of (line (text "send")) ≡ text "send" ∷ []
unfolding pieces
sent = refl

both_types : (is4 : Bool) → delete_types (record_type_of is4) ≡ type_a ∷ type_aaaa ∷ []
unfolding delete_types trim_space to_upper
both_types true = refl
both_types false = refl

module _ (hostname zone : Text) (one_host : Lacks 10 hostname) (one_zone : Lacks 10 zone) where
  Lacks-full_name : Lacks 10 (full_name hostname zone)
  Lacks-full_name = Lacks-append 10 hostname (46 ∷ zone) one_host one_zone

  Lacks-delete : (n t : Text) → Lacks 10 n → Lacks 10 t → Lacks 10 (delete_text n t)
  Lacks-delete n t h k =
      Lacks-append 10 (text "update delete ") (n ++ 32 ∷ t) refl (Lacks-append 10 n (32 ∷ t) h k)

  delete_lines-lines :
      (wildcard : Bool) (ts : List Text) (rest : Text)
      → All (Lacks 10) ts
      → lines_of (delete_lines hostname zone wildcard ts ++ rest)
        ≡ deletions (names_of hostname zone wildcard) ts ++ lines_of rest
  unfolding delete_lines
  delete_lines-lines wildcard [] rest h = refl
  delete_lines-lines false (t ∷ ts) rest h =
      ap lines_of (
        append_assoc (delete_line (full_name hostname zone) t) (delete_lines hostname zone false ts)
          rest)
      ∙ (lines-line (delete_text (full_name hostname zone) t)
            (delete_lines hostname zone false ts ++ rest)
            (Lacks-delete (full_name hostname zone) t Lacks-full_name h.0)
          ∙ ap (◌∷◌ (delete_text (full_name hostname zone) t))
              (delete_lines-lines false ts rest h.1))
  delete_lines-lines true (t ∷ ts) rest h =
      ap lines_of (
        append_assoc (delete_line (full_name hostname zone) t)
          (delete_line (wildcard_name hostname zone) t ++ delete_lines hostname zone true ts) rest)
      ∙ (lines-line (delete_text (full_name hostname zone) t)
            ((delete_line (wildcard_name hostname zone) t ++ delete_lines hostname zone true ts)
              ++ rest)
            (Lacks-delete (full_name hostname zone) t Lacks-full_name h.0)
          ∙ ap (◌∷◌ (delete_text (full_name hostname zone) t)) (
              ap lines_of (
                append_assoc (delete_line (wildcard_name hostname zone) t)
                  (delete_lines hostname zone true ts) rest)
              ∙ (lines-line (delete_text (wildcard_name hostname zone) t)
                    (delete_lines hostname zone true ts ++ rest)
                    (Lacks-delete (wildcard_name hostname zone) t Lacks-full_name h.0)
                  ∙ ap (◌∷◌ (delete_text (wildcard_name hostname zone) t))
                      (delete_lines-lines true ts rest h.1))))

  Lacks-add :
      (n : Text) (ttl : ℤ) (t target : Text)
      → Lacks 10 n
      → Lacks 10 t
      → Lacks 10 target
      → Lacks 10 (add_text n ttl t target)
  Lacks-add n ttl t target h k l =
      Lacks-append 10 (text "update add ") (n ++ 32 ∷ (print_int ttl ++ 32 ∷ (t ++ 32 ∷ target)))
        refl
        (Lacks-append 10 n (32 ∷ (print_int ttl ++ 32 ∷ (t ++ 32 ∷ target))) h (
          Lacks-append 10 (print_int ttl) (32 ∷ (t ++ 32 ∷ target)) (Lacks-print_int ttl)
            (Lacks-append 10 t (32 ∷ target) k l)))

  -- The script of an address record, where no part of it has a line break, is read as these lines and
  -- no others: the server, the zone, for each of the two address types the removal of the host's
  -- name and, with a wildcard, of the names below it, then the one record under these same names,
  -- and the request to send.
  pub build_upsert_script-lines :
      (server target : Text) (is4 : Bool) (ttl : ℤ) (wildcard : Bool)
      → Lacks 10 server
      → Lacks 10 target
      → lines_of (build_upsert_script server hostname zone (record_type_of is4) target ttl wildcard)
        ≡ (text "server " ++ server)
          ∷ (text "zone " ++ zone)
          ∷ (deletions (names_of hostname zone wildcard) (type_a ∷ type_aaaa ∷ [])
              ++ (additions (names_of hostname zone wildcard) ttl (record_type_of is4) target
                  ++ text "send" ∷ []))
  unfolding build_upsert_script
  build_upsert_script-lines server target is4 ttl wildcard s t =
      two_lines (text "server " ++ server) (text "zone " ++ zone) _
        (Lacks-append 10 (text "server ") server refl s)
        (Lacks-append 10 (text "zone ") zone refl one_zone)
      ∙ ap (λ l. (text "server " ++ server) ∷ (text "zone " ++ zone) ∷ l)
          (ap (λ ts. lines_of (delete_lines hostname zone wildcard ts ++ additions_text wildcard))
              (both_types is4)
            ∙ (delete_lines-lines wildcard (type_a ∷ type_aaaa ∷ []) (additions_text wildcard)
                  (refl, (refl, tt))
                ∙ ap
                    (λ l.
                      deletions (names_of hostname zone wildcard) (type_a ∷ type_aaaa ∷ []) ++ l)
                    (added wildcard)))
    where
      additions_text : Bool → Text
      additions_text w =
          add_line (full_name hostname zone) ttl (record_type_of is4) target
          ++ ((if w
                then add_line (wildcard_name hostname zone) ttl (record_type_of is4) target
                else [])
              ++ line (text "send"))

      kind : (b : Bool) → Lacks 10 (record_type_of b)
      kind true = refl
      kind false = refl

      added :
          (w : Bool)
          → lines_of (additions_text w)
            ≡ additions (names_of hostname zone w) ttl (record_type_of is4) target
              ++ text "send" ∷ []
      added false =
          lines-line (add_text (full_name hostname zone) ttl (record_type_of is4) target)
            (line (text "send"))
            (Lacks-add (full_name hostname zone) ttl (record_type_of is4) target Lacks-full_name
              (kind is4) t)
          ∙ ap (◌∷◌ (add_text (full_name hostname zone) ttl (record_type_of is4) target)) sent
      added true =
          lines-line (add_text (full_name hostname zone) ttl (record_type_of is4) target)
            (add_line (wildcard_name hostname zone) ttl (record_type_of is4) target
              ++ line (text "send"))
            (Lacks-add (full_name hostname zone) ttl (record_type_of is4) target Lacks-full_name
              (kind is4) t)
          ∙ ap (◌∷◌ (add_text (full_name hostname zone) ttl (record_type_of is4) target)) (
              lines-line (add_text (wildcard_name hostname zone) ttl (record_type_of is4) target)
                (line (text "send"))
                (Lacks-add (wildcard_name hostname zone) ttl (record_type_of is4) target
                  Lacks-full_name (kind is4) t)
              ∙ ap (◌∷◌ (add_text (wildcard_name hostname zone) ttl (record_type_of is4) target))
                  sent)
