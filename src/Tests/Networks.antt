-- ===== src/Tests/Networks.antt =====
-- The network identity of a device at concrete values.
use olimpo.Common.{
  ◌≡◌, refl, List, [], ◌∷◌, some, none, Bool, true, false, Text, pos, find, ◌==◌, nat_eq, ◌↔◌,
  Sorted,
}
use mathlib.Core.List.{Permᴰ}
use olimpo.Errors.{network, NetworkError}
use olimpo.Gorm.{◌>>=◌, first_or, first?, create_row, delete_where}
use olimpo.Gorm.Memory.{memory}
use olimpo.Gorm.Rules.{Atomic, Ensures}
use olimpo.Model.{Database, AddressScope, NatState, Device}
use olimpo.Text.{text, trim_space, to_lower}
use olimpo.Network.Address.{parse_ipv4, classify_ipv4, dotted}
use olimpo.Network.Ranges.{judged, classify_ipv4-judged}
use olimpo.Network.Wan.{WanInput, build_wan}
use olimpo.Network.Flags.{IsConsistent, build_wan-IsConsistent}
use olimpo.Network.Input.{SegmentInput, ReportInput, validate_input}
use olimpo.Network.Valid.{validate_input-IsValidReport}
use olimpo.Network.ReportRules.{IsValidReport}
use olimpo.Network.Report.{report_network}
use olimpo.Network.Replaced.{Reported, ReportRefused, report_network_Sound}
use olimpo.Network.Recorded.{IsRecorded, report_network-IsRecorded}
use olimpo.Network.Contexts.{network_context, list_contexts}
use olimpo.Grouping.{device_less}
use olimpo.Network.Views.{Shows, ShowsAll, network_context-Shows, list_contexts-Shows}
use olimpo.Tests.Sample.{sample}

shared : classify_ipv4 (text " 100.64.1.2") ≡ AddressScope.cgnat
unfolding classify_ipv4 trim_space
shared = refl

leading_zero : parse_ipv4 (text "192.168.01.1") ≡ none
unfolding parse_ipv4 trim_space
leading_zero = refl

gateway : parse_ipv4 (text "192.168.1.1") ≡ some (dotted 192 168 1 1)
unfolding parse_ipv4 trim_space
gateway = refl

classify_ipv4-judged_example :
    classify_ipv4 (text "203.0.113.9")
    ≡ judged (text "203.0.113.9") (parse_ipv4 (trim_space (text "203.0.113.9")))
classify_ipv4-judged_example = classify_ipv4-judged (text "203.0.113.9")

abbrev uplink : WanInput
uplink = record {
  interface_name = text "eth8";
  role = text " Primary";
  default_route = true;
  ipv4 = text "192.168.1.2";
  gateway_ipv4 = text "192.168.1.1";
  ipv6 = [];
  public_ipv4 = [];
}

abbrev lan : SegmentInput
lan = record {
  name = text "lan";
  vlan_id = some (pos 10);
  ipv4_cidr = text "10.0.10.0/24";
  gateway_ipv4 = text "10.0.10.1";
  purpose = [];
}

abbrev home : ReportInput
home = record { wans = uplink ∷ []; networks = lan ∷ [] }

abbrev no_ipv6 : Text → Bool
no_ipv6 s = false

-- Behind another router: the server sees a public address.
double_nat : (build_wan 7 (text "8.8.8.8") uplink 1).nat_state ≡ NatState.double_nat
unfolding build_wan trim_space to_lower
double_nat = refl

home_valid : validate_input no_ipv6 home ≡ none
unfolding validate_input trim_space to_lower
home_valid = refl

stray_gateway :
    validate_input no_ipv6
      (record home { networks = record lan { gateway_ipv4 = text "10.0.11.1" } ∷ [] })
    ≡ some NetworkError.invalid_gateway
unfolding validate_input trim_space to_lower
stray_gateway = refl

build_wan-IsConsistent_example : IsConsistent (build_wan 7 (text "8.8.8.8") uplink 1)
build_wan-IsConsistent_example = build_wan-IsConsistent 7 (text "8.8.8.8") uplink 1

validate_input-IsValidReport_example :
    (validate_input no_ipv6 home ≡ none) ↔ IsValidReport no_ipv6 home
validate_input-IsValidReport_example = validate_input-IsValidReport no_ipv6 home

report_network_Sound_example :
    Atomic
      (Reported no_ipv6 7 (trim_space (text "8.8.8.8")) home 100 sample)
      (ReportRefused no_ipv6 7 home sample)
      (report_network memory no_ipv6 7 (text "8.8.8.8") home 100)
      sample
report_network_Sound_example =
    report_network_Sound memory no_ipv6 7 (text "8.8.8.8") home 100 sample

abbrev reported_db : Database
reported_db = (report_network memory no_ipv6 7 (text "8.8.8.8") home 100 sample).1

sample-IsRecorded : IsRecorded sample
sample-IsRecorded = (tt, tt)

report_network-IsRecorded_example : IsRecorded reported_db
report_network-IsRecorded_example =
    report_network-IsRecorded memory no_ipv6 7 (text "8.8.8.8") home 100 sample tt (tt, tt)

network_context-Shows_example :
    Ensures
      (λ c s'.
        (d : Device) × (find (λ x. x.id == 7) reported_db.devices ≡ some d)
        × Shows reported_db d c
        × (s' ≡ reported_db))
      (λ r.
        (r ≡ network NetworkError.device_not_found)
        × (find (λ x. x.id == 7) reported_db.devices ≡ none))
      (network_context memory 7)
      reported_db
network_context-Shows_example =
    network_context-Shows memory reported_db 7
      (report_network-IsRecorded memory no_ipv6 7 (text "8.8.8.8") home 100 sample tt (tt, tt))

list_contexts-Shows_example :
    Ensures
      (λ cs s'.
        (ds : List Device) × Permᴰ reported_db.devices ds
        × Sorted device_less ds
        × ShowsAll reported_db ds cs
        × (s' ≡ reported_db))
      (λ r. ⊥)
      (list_contexts memory)
      reported_db
unfolding report_network find trim_space to_lower ◌>>=◌ first_or first? create_row delete_where
list_contexts-Shows_example = list_contexts-Shows memory reported_db (refl, tt)
