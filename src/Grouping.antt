-- ===== src/Grouping.antt =====
-- Rows by device, as the lists of networkcontext/service.go and telemetry/service.go build them: a map
-- from a device's key to its rows, or to its last row.
use mathlib.Core.List.{append_assoc, append-nil}
use olimpo.Common.{
  ℕ, ◌≡◌, refl, sym, ap, subst, ◌∙◌, inl, inr, Bool, true, Option, none, some, List, [], ◌∷◌, ◌++◌,
  ◌==◌, nat_eq, nat_beq_iff, if◌then◌else◌, find, select, Bool-cases, text_ltb, text_ltb-IsOrder,
  IsOrder,
}
use olimpo.Model.{Device}

abbrev pub every : {A : Type 0} → A → Bool
every a = true

abbrev pub device_less : Device → Device → Bool
device_less a b = text_ltb a.name b.name

-- `rowsByDevice[row.DeviceID] = append(...)` over the rows, from the map built so far; a missing key
-- is nil, the empty list
unfoldable pub group_rows : {Row : Type 0} → (Row → ℕ) → (ℕ → List Row) → List Row → ℕ → List Row
group_rows device_of by_device [] = by_device
group_rows device_of by_device (r ∷ rs) =
    group_rows device_of (λ d. if device_of r == d then by_device d ++ r ∷ [] else by_device d) rs

-- `snapshotByDevice[row.DeviceID] = &row`
unfoldable pub index_rows :
    {Row : Type 0} → (Row → ℕ) → (ℕ → Option Row) → List Row → ℕ → Option Row
index_rows device_of by_device [] = by_device
index_rows device_of by_device (r ∷ rs) =
    index_rows device_of (λ d. if device_of r == d then some r else by_device d) rs

-- The unique index on the rows' device.
abbrev pub OnePerDevice : {Row : Type 0} → (Row → ℕ) → List Row → Type 0
OnePerDevice device_of [] = Unit
OnePerDevice device_of (x ∷ xs) =
    (find (λ r. device_of r == device_of x) xs ≡ none) × OnePerDevice device_of xs

module _ {Row : Type 0} where
  pub select-every : (xs : List Row) → select every xs ≡ xs
  unfolding select
  select-every [] = refl
  select-every (x ∷ xs) = ap (◌∷◌ x) (select-every xs)

  -- The map of the rows by device holds, for each, its rows in their order.
  pub group_rows-select :
      (device_of : Row → ℕ) (xs : List Row) (m : ℕ → List Row) (d : ℕ)
      → group_rows device_of m xs d ≡ m d ++ select (λ r. device_of r == d) xs
  unfolding group_rows select
  group_rows-select device_of [] m d = sym (append-nil (m d))
  group_rows-select device_of (x ∷ xs) m d =
      group_rows-select device_of xs _ d ∙ elim (Bool-cases (device_of x == d)) [
        | inl t ↦ rw t (append_assoc (m d) (x ∷ []) (select (λ r. device_of r == d) xs))
        | inr t ↦ rw t refl
      ]

abbrev pub or_else : {A : Type 0} → Option A → Option A → Option A
or_else none o = o
or_else (some a) o = some a

-- With one row per device, the last one of a device is the first.
pub index_rows-find :
    {Row : Type 0} (device_of : Row → ℕ) (xs : List Row) (m : ℕ → Option Row) (d : ℕ)
    → OnePerDevice device_of xs
    → index_rows device_of m xs d ≡ or_else (find (λ r. device_of r == d) xs) (m d)
unfolding index_rows find
index_rows-find device_of [] m d h = refl
index_rows-find device_of (x ∷ xs) m d h =
    index_rows-find device_of xs _ d h.1 ∙ elim (Bool-cases (device_of x == d)) [
      | inl t ↦
          let same : device_of x ≡ d = (nat_beq_iff (device_of x) d).0 t in
          rw (t, subst (λ n. find (λ r. device_of r == n) xs ≡ none) same h.0) refl
      | inr t ↦ rw t refl
    ]

pub or_else-none : {A : Type 0} (o : Option A) → or_else o none ≡ o
or_else-none none = refl
or_else-none (some a) = refl

pub device_less-IsOrder : IsOrder device_less
device_less-IsOrder = record {
  asym = λ x y. text_ltb-IsOrder.asym x.name y.name;
  apart = λ x y z. text_ltb-IsOrder.apart x.name y.name z.name;
}
