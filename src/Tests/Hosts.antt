-- ===== src/Tests/Hosts.antt =====
-- An update of a host at concrete values: the gate of a device that may create it.
use olimpo.Common.{
  ◌≡◌, refl, List, [], ◌∷◌, Option, some, none, Bool, true, Text, ℤ, pos, false, find,
}
use olimpo.Gorm.{◌>>=◌, first?, create_row, update_where}
use olimpo.Gorm.Memory.{memory}
use olimpo.Model.{Database, Host}
use olimpo.Text.{text, trim_space, to_lower, has_prefix}
use olimpo.Ddns.{AuthContext, can_autocreate, split_managed_fqdn}
use olimpo.Ddns.Update.{Settings, UpdateRequest, update_host}
use olimpo.Ddns.Kept.{OthersKept}
use olimpo.Ddns.Owners.{update_host-OthersKept}
use olimpo.Tests.Sample.{sample, router, first_key}

abbrev pub settings : Settings
settings = record {
  allowed_domains = text "example.org" ∷ [];
  default_ttl = pos 300;
  allow_wildcard = false;
  autocreate_policy = text "device-prefix";
}

abbrev caller : AuthContext
caller = record { device = router; credential = first_key }

abbrev pub request : UpdateRequest
request = record {
  fqdn = text "udm-7-gate.example.org";
  requested_ip = text "192.0.2.7";
  caller_ip = text "192.0.2.1";
  user_agent = [];
  requested_at = 100;
  now = 101;
  completed_at = 102;
}

-- Every text is an IPv4 address, and the DNS server takes every record.
abbrev pub plain_ip : Text → Option (Bool × Text)
plain_ip s = some (true, s)

abbrev pub taken : Text → Text → Text → Text → ℤ → Bool → Option Text
taken hostname zone record_type ip ttl wildcard = none

abbrev updated_db : Database
updated_db = (update_host memory plain_ip taken settings caller request sample).1

abbrev addresses : List Host → List Text
addresses [] = []
addresses (h ∷ hs) = h.ip_address ∷ addresses hs

update_host-OthersKept_example : OthersKept 7 sample updated_db
update_host-OthersKept_example =
    update_host-OthersKept memory plain_ip taken settings caller request sample

created_host : addresses updated_db.hosts ≡ text "192.0.2.7" ∷ []
unfolding update_host can_autocreate split_managed_fqdn to_lower trim_space ◌>>=◌ first? find
    create_row has_prefix update_where
created_host = refl
