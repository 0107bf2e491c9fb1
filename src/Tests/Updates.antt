-- ===== src/Tests/Updates.antt =====
-- The names and the authentication of DDNS updates at concrete values.
use olimpo.Common.{ℕ, ◌≡◌, refl, List, [], ◌∷◌, some, take, Text, pos, false}
use olimpo.Gorm.Memory.{memory}
use olimpo.Gorm.Rules.{Atomic, Ensures}
use olimpo.Model.{Database}
use olimpo.Text.{text, trim_space, to_lower}
use olimpo.Keys.{hash_api_key}
use olimpo.Ddns.{
  authenticate_update, split_managed_fqdn, split_name, normal_name, before_suffix, trim_dot,
  ddns_bad_auth,
}
use olimpo.Domains.{ensure_domains, Seeded, ensure_domains-Ensures}
use olimpo.Ddns.Names.{IsManaged, split_managed_fqdn-IsManaged}
use olimpo.Ddns.Verify.{UpdaterAdmitted, authenticate_update_Sound}
use olimpo.Tests.Sample.{sample, first_key}

abbrev domains : List Text
domains = text "example.org" ∷ text "Example.com." ∷ []

host_split :
    split_managed_fqdn domains (text " Gate.Example.com.") ≡ some (text "gate", text "example.com")
unfolding split_managed_fqdn split_name before_suffix trim_dot trim_space to_lower
host_split = refl

split_managed_fqdn-IsManaged_example :
    IsManaged domains (normal_name (text " Gate.Example.com.")) (text "gate", text "example.com")
split_managed_fqdn-IsManaged_example =
    split_managed_fqdn-IsManaged domains (text " Gate.Example.com.")
      (text "gate", text "example.com") host_split

abbrev pub short_digest : List ℕ → List ℕ
short_digest bytes = take 8 bytes

abbrev pub keyed : Database
keyed = record sample {
  ddns_credentials =
      record first_key { secret_hash = hash_api_key short_digest (text "hddns_key") } ∷ [];
}

authenticate_update_Sound_example :
    Atomic
      (UpdaterAdmitted short_digest keyed (text "udm-7") (text "hddns_key") (text "192.0.2.1") 100)
      (λ e. e ≡ ddns_bad_auth)
      (authenticate_update memory short_digest
        (text "udm-7")
        (text "hddns_key")
        (text "192.0.2.1")
        100)
      keyed
authenticate_update_Sound_example =
    authenticate_update_Sound memory short_digest keyed (text "udm-7") (text "hddns_key")
      (text "192.0.2.1") 100

ensure_domains-Ensures_example :
    Ensures (Seeded sample domains) (λ e. ⊥) (ensure_domains memory domains (pos 60) false) sample
ensure_domains-Ensures_example = ensure_domains-Ensures memory (pos 60) false domains sample
