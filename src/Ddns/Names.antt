-- ===== src/Ddns/Names.antt =====
-- What the split of a name says of it.
use mathlib.Core.Option.{some-injective, none-ne-some}
use olimpo.Common.{
  ◌≡◌, refl, sym, ap, inl, inr, false, ◌||◌, Option, none, some, List, [], ◌∷◌, ◌++◌, Text, arith,
  ◌==◌, nat_eq, text_eq, text_beq_iff, Bool-cases,
}
use olimpo.Gorm.{In}
use olimpo.Text.{is_empty}
use olimpo.Ddns.{
  before_suffix, put_back, has_dot, label_in, split_name, split_managed_fqdn, normal_name,
}

before_suffix_whole :
    (s suffix label : Text) → before_suffix s suffix ≡ some label → s ≡ label ++ suffix
unfolding before_suffix
before_suffix_whole [] suffix label h = elim (Bool-cases (suffix == [])) [
  | inl t ↦ rw (← some-injective [] label (rw t at h)) (sym ((text_beq_iff suffix []).0 t))
  | inr t ↦ absurd (none-ne-some label (rw t at h))
]
before_suffix_whole (c ∷ s) suffix label h = elim (Bool-cases ((c ∷ s) == suffix)) [
  | inl t ↦ rw (← some-injective [] label (rw t at h)) ((text_beq_iff (c ∷ s) suffix).0 t)
  | inr t ↦ go (before_suffix s suffix) refl (rw t at h) (λ l e. before_suffix_whole s suffix l e)
]
  where
    go :
        (o : Option Text)
        → before_suffix s suffix ≡ o
        → put_back c o ≡ some label
        → ((l : Text) → before_suffix s suffix ≡ some l → s ≡ l ++ suffix)
        → c ∷ s ≡ label ++ suffix
    go none e k ih = absurd (none-ne-some label k)
    go (some l) e k ih = rw (← some-injective (c ∷ l) label k) (ap (◌∷◌ c) (ih l e))

-- The name is the label, a dot and the zone; the label is one label; the zone is an allowed one.
abbrev pub IsManaged : List Text → Text → Text × Text → Type 0
IsManaged allowed name (label, zone) =
    (name ≡ label ++ 46 ∷ zone)
    × (is_empty label ≡ false)
    × (has_dot label ≡ false)
    × ((z : Text) × In z allowed × (normal_name z ≡ zone))

split_name-IsManaged :
    (name : Text) (allowed : List Text) (r : Text × Text)
    → split_name name allowed ≡ some r
    → IsManaged allowed name r
unfolding split_name
split_name-IsManaged name [] r h = absurd (none-ne-some r h)
split_name-IsManaged name (z ∷ zones) r h =
    go (before_suffix name (46 ∷ normal_name z)) refl h (λ k. split_name-IsManaged name zones r k)
  where
    keep : IsManaged zones name r → IsManaged (z ∷ zones) name r
    keep (whole, full, one, (w, i, e)) = (whole, full, one, (w, inr i, e))

    go :
        (o : Option Text)
        → before_suffix name (46 ∷ normal_name z) ≡ o
        → label_in o (normal_name z) (split_name name zones) ≡ some r
        → (split_name name zones ≡ some r → IsManaged zones name r)
        → IsManaged (z ∷ zones) name r
    go none e k ih = keep (ih k)
    go (some label) e k ih = elim (Bool-cases (is_empty label || has_dot label)) [
      | inl t ↦ absurd (none-ne-some r (rw t at k))
      | inr t ↦ rw (← some-injective (label, normal_name z) r (rw t at k)) (
        before_suffix_whole name (46 ∷ normal_name z) label e,
        ground arith,
        ground arith,
        (z, inl refl, refl),
      )
    ]

-- Where a name is split, its normal form is the label, a dot and the zone, the label is not empty
-- and has no dot, and the zone is the normal form of an allowed domain.
pub split_managed_fqdn-IsManaged :
    (allowed : List Text) (fqdn : Text) (r : Text × Text)
    → split_managed_fqdn allowed fqdn ≡ some r
    → IsManaged allowed (normal_name fqdn) r
unfolding split_managed_fqdn
split_managed_fqdn-IsManaged allowed fqdn r h = split_name-IsManaged (normal_name fqdn) allowed r h
