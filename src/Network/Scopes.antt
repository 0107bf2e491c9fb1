-- ===== src/Network/Scopes.antt =====
-- What isCGNAT, isPublicIPv4 and classifyIPv4 say, against a table of address ranges.
use olimpo.Common.{
  ℕ, ◌^◌, ◌<◌, ◌≡◌, Bool, false, not, ◌&&◌, ◌||◌, List, [], ◌∷◌, leb, ◌==◌, nat_eq, arith,
  if◌then◌else◌,
}
use olimpo.Model.{AddressScope}
use olimpo.Network.Address.{dotted, contains, is_cgnat, scope_of}

-- The first and the last address of a range, and its scope.
abbrev pub Range : Type 0
Range = ℕ × ℕ × AddressScope

abbrev pub reserved : List Range
reserved =
    (dotted 100 64 0 0, dotted 100 127 255 255, AddressScope.cgnat)
    ∷ (dotted 10 0 0 0, dotted 10 255 255 255, AddressScope.private)
    ∷ (dotted 172 16 0 0, dotted 172 31 255 255, AddressScope.private)
    ∷ (dotted 192 168 0 0, dotted 192 168 255 255, AddressScope.private)
    ∷ (dotted 0 0 0 0, dotted 0 255 255 255, AddressScope.special)
    ∷ (dotted 127 0 0 0, dotted 127 255 255 255, AddressScope.special)
    ∷ (dotted 169 254 0 0, dotted 169 254 255 255, AddressScope.special)
    ∷ (dotted 192 0 0 0, dotted 192 0 0 255, AddressScope.special)
    ∷ (dotted 192 0 2 0, dotted 192 0 2 255, AddressScope.special)
    ∷ (dotted 198 18 0 0, dotted 198 19 255 255, AddressScope.special)
    ∷ (dotted 198 51 100 0, dotted 198 51 100 255, AddressScope.special)
    ∷ (dotted 203 0 113 0, dotted 203 0 113 255, AddressScope.special)
    ∷ (dotted 224 0 0 0, dotted 255 255 255 255, AddressScope.special)
    ∷ []

-- The scope of the first range that holds the address, and else public.
abbrev pub look_up : List Range → ℕ → AddressScope
look_up [] a = AddressScope.public
look_up ((first, last, scope) ∷ rest) a =
    let others = look_up rest a in if leb first a && leb a last then scope else others

abbrev within : ℕ → ℕ → ℕ → Bool
within first last a = leb first a && leb a last

-- What a prefix contains is a range.
cgnat-within : (a : ℕ) → is_cgnat a ≡ within (dotted 100 64 0 0) (dotted 100 127 255 255) a
unfolding is_cgnat
cgnat-within a = ground arith

private_a :
    (a : ℕ)
    → contains record { base = dotted 10 0 0 0; bits = 8 } a
      ≡ within (dotted 10 0 0 0) (dotted 10 255 255 255) a
unfolding contains
private_a a = ground arith

private_b :
    (a : ℕ)
    → contains record { base = dotted 172 16 0 0; bits = 12 } a
      ≡ within (dotted 172 16 0 0) (dotted 172 31 255 255) a
unfolding contains
private_b a = ground arith

private_c :
    (a : ℕ)
    → contains record { base = dotted 192 168 0 0; bits = 16 } a
      ≡ within (dotted 192 168 0 0) (dotted 192 168 255 255) a
unfolding contains
private_c a = ground arith

special_0 :
    (a : ℕ)
    → (a == 0 || contains record { base = dotted 0 0 0 0; bits = 8 } a)
      ≡ within (dotted 0 0 0 0) (dotted 0 255 255 255) a
unfolding contains
special_0 a = ground arith

loopback :
    (a : ℕ)
    → contains record { base = dotted 127 0 0 0; bits = 8 } a
      ≡ within (dotted 127 0 0 0) (dotted 127 255 255 255) a
unfolding contains
loopback a = ground arith

link_local :
    (a : ℕ)
    → contains record { base = dotted 169 254 0 0; bits = 16 } a
      ≡ within (dotted 169 254 0 0) (dotted 169 254 255 255) a
unfolding contains
link_local a = ground arith

protocol :
    (a : ℕ)
    → contains record { base = dotted 192 0 0 0; bits = 24 } a
      ≡ within (dotted 192 0 0 0) (dotted 192 0 0 255) a
unfolding contains
protocol a = ground arith

test_1 :
    (a : ℕ)
    → contains record { base = dotted 192 0 2 0; bits = 24 } a
      ≡ within (dotted 192 0 2 0) (dotted 192 0 2 255) a
unfolding contains
test_1 a = ground arith

benchmark :
    (a : ℕ)
    → contains record { base = dotted 198 18 0 0; bits = 15 } a
      ≡ within (dotted 198 18 0 0) (dotted 198 19 255 255) a
unfolding contains
benchmark a = ground arith

test_2 :
    (a : ℕ)
    → contains record { base = dotted 198 51 100 0; bits = 24 } a
      ≡ within (dotted 198 51 100 0) (dotted 198 51 100 255) a
unfolding contains
test_2 a = ground arith

test_3 :
    (a : ℕ)
    → contains record { base = dotted 203 0 113 0; bits = 24 } a
      ≡ within (dotted 203 0 113 0) (dotted 203 0 113 255) a
unfolding contains
test_3 a = ground arith

top :
    (a : ℕ)
    → a < 2 ^ 32
    → (contains record { base = dotted 224 0 0 0; bits = 4 } a
        || contains record { base = dotted 240 0 0 0; bits = 4 } a)
      ≡ within (dotted 224 0 0 0) (dotted 255 255 255 255) a
unfolding contains
top a h = ground arith

-- The order of the tests.
sorted_out :
    (c p1 p2 p3 l1 l2 m u s0 s1 s2 s3 s4 s5 s6 : Bool)
    {rc rp1 rp2 rp3 rl1 rl2 rs1 rs2 rs3 rs4 rs5 zero_net top_net : Bool}
    → c ≡ rc
    → p1 ≡ rp1
    → p2 ≡ rp2
    → p3 ≡ rp3
    → l1 ≡ rl1
    → l2 ≡ rl2
    → s1 ≡ rs1
    → s2 ≡ rs2
    → s3 ≡ rs3
    → s4 ≡ rs4
    → s5 ≡ rs5
    → (u || s0) ≡ zero_net
    → (m || s6) ≡ top_net
    → (if c
        then AddressScope.cgnat
        else if p1 || p2 || p3
        then AddressScope.private
        else if not ((p1 || p2 || p3) || (l1 || l2 || m || u) || c)
            && not (s0 || (s1 || (s2 || (s3 || (s4 || (s5 || (s6 || false)))))))
        then AddressScope.public
        else AddressScope.special)
      ≡ (if rc
          then AddressScope.cgnat
          else if rp1
          then AddressScope.private
          else if rp2
          then AddressScope.private
          else if rp3
          then AddressScope.private
          else if zero_net
          then AddressScope.special
          else if rl1
          then AddressScope.special
          else if rl2
          then AddressScope.special
          else if rs1
          then AddressScope.special
          else if rs2
          then AddressScope.special
          else if rs3
          then AddressScope.special
          else if rs4
          then AddressScope.special
          else if rs5
          then AddressScope.special
          else if top_net
          then AddressScope.special
          else AddressScope.public)
sorted_out c p1 p2 p3 l1 l2 m u s0 s1 s2 s3 s4 s5 s6 h0 h1 h2 h3 h4 h5 h6 h7 h8 h9 h10 h11 h12 =
    ground arith

-- An address is classified by the table of ranges.
pub scope_of-look_up : (a : ℕ) → a < 2 ^ 32 → scope_of a ≡ look_up reserved a
unfolding scope_of
scope_of-look_up a h =
    sorted_out _ _ _ _ _ _ _ _ _ _ _ _ _ _ _ (cgnat-within a) (private_a a) (private_b a)
      (private_c a) (loopback a) (link_local a) (protocol a) (test_1 a) (benchmark a) (test_2 a)
      (test_3 a) (special_0 a) (top a h)
