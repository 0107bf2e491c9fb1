-- ===== src/Network/Replaced.antt =====
-- Report as a whole: the validated, replaced and sorted rows, and why a report is refused.
use mathlib.Core.List.{Permᴰ}
use olimpo.Common.{
  ℕ, ◌≡◌, ◌⊎◌, refl, inl, inr, Bool, Option, none, some, nat_eq, Text, sort-Permᴰ, sort-Sorted,
  Sorted, IsOrder, text_ltb-IsOrder, arith, find,
}
use olimpo.Errors.{NetworkError, network, Refusal}
use olimpo.Gorm.{Gorm, Exec, pure, ◌>>=◌}
use olimpo.Gorm.Outcomes.{Atomic-map, Atomic-refusals}
use olimpo.Gorm.Rules.{Atomic, Atomic-refuse, transaction-Atomic}
use olimpo.Model.{Database}
use olimpo.Credential.Base.{active_device}
use olimpo.Text.{trim_space}
use olimpo.Network.Input.{ReportInput, validate_input}
use olimpo.Network.Report.{
  DeviceNetworkContext, wan_less, segment_less, sort_context, report_network_tx, report_network,
  unless_error,
}
use olimpo.Network.Stored.{Replaced, report_network_tx-Ensures}

pub wan_less-IsOrder : IsOrder wan_less
unfolding wan_less
wan_less-IsOrder = record {
  asym = λ x y. ground (arith, text_ltb-IsOrder.asym x.interface_name y.interface_name);
  apart = λ x y z.
      ground (arith, text_ltb-IsOrder.apart x.interface_name y.interface_name z.interface_name);
}

pub segment_less-IsOrder : IsOrder segment_less
segment_less-IsOrder = record {
  asym = λ x y. text_ltb-IsOrder.asym x.name y.name;
  apart = λ x y z. text_ltb-IsOrder.apart x.name y.name z.name;
}

-- The answer to a valid report: what is stored, with the default route first and in the order of
-- names.
abbrev pub Reported :
    (Text → Bool) → ℕ → Text → ReportInput → ℕ → Database → DeviceNetworkContext → Database → Type 0
Reported is_ipv6 device_id observed input now s c s' =
    (validate_input is_ipv6 input ≡ none)
    × Replaced device_id observed input now s c s'
    × Sorted wan_less c.wans
    × Sorted segment_less c.networks

-- Why a report is refused: it is not valid, or there is no such active device.
abbrev pub ReportRefused : (Text → Bool) → ℕ → ReportInput → Database → Refusal → Type 0
ReportRefused is_ipv6 device_id input s r =
    ((e : NetworkError) × (validate_input is_ipv6 input ≡ some e) × (r ≡ network e))
    ⊎ ((r ≡ network NetworkError.device_not_found)
        × (find (active_device device_id) s.devices ≡ none))

sort_context-Reported :
    (is_ipv6 : Text → Bool) (device_id : ℕ) (observed : Text) (input : ReportInput) (now : ℕ)
    (s : Database) (c : DeviceNetworkContext) (s' : Database)
    → validate_input is_ipv6 input ≡ none
    → Replaced device_id observed input now s c s'
    → Reported is_ipv6 device_id observed input now s (sort_context c) s'
unfolding sort_context
sort_context-Reported is_ipv6 device_id observed input now s c s' valid
      (x, ws, ns, rows, d, r, e, st, mw, mn, pw, pn, f) =
    (
      valid,
      (
        x,
        ws,
        ns,
        rows,
        d,
        r,
        e,
        st,
        mw,
        mn,
        Permᴰ.trans pw (sort-Permᴰ wan_less c.wans),
        Permᴰ.trans pn (sort-Permᴰ segment_less c.networks),
        f,
      ),
      sort-Sorted wan_less wan_less-IsOrder c.wans,
      sort-Sorted segment_less segment_less-IsOrder c.networks,
    )

-- A report that succeeds is valid and of an active device; it stores the device's one snapshot, with the
-- trimmed address that the server saw, and puts the interfaces and networks built of the report in
-- place of all those that the device had; no other row of any table changes; and it answers with
-- them, in order. A refused report is not valid, or is of no active device. A report that does not
-- succeed leaves the database as it was.
pub report_network_Sound :
    (db : Gorm) (is_ipv6 : Text → Bool) (device_id : ℕ) (server : Text) (input : ReportInput)
    (now : ℕ) (s : Database)
    → Atomic
        (Reported is_ipv6 device_id (trim_space server) input now s)
        (ReportRefused is_ipv6 device_id input s)
        (report_network db is_ipv6 device_id server input now)
        s
unfolding report_network
report_network_Sound db is_ipv6 device_id server input now s =
    go (validate_input is_ipv6 input) refl
  where
    body : Exec Database DeviceNetworkContext
    body = db.transaction (report_network_tx db device_id (trim_space server) input now)

    go :
        (o : Option NetworkError)
        → validate_input is_ipv6 input ≡ o
        → Atomic
            (Reported is_ipv6 device_id (trim_space server) input now s)
            (ReportRefused is_ipv6 device_id input s)
            (unless_error o (body >>= λ c. pure (sort_context c)))
            s
    go (some e) h = Atomic-refuse _ s (inl (e, h, refl))
    go none h =
        Atomic-map body sort_context s
          (λ c t. sort_context-Reported is_ipv6 device_id (trim_space server) input now s c t h)
          (Atomic-refusals body s (λ r k. inr k)
            (transaction-Atomic db _ s
              (report_network_tx-Ensures db device_id (trim_space server) input now s)))
