-- ===== src/Config.antt =====
-- products/hermes/internal/config/config.go: the configuration that is read from the environment, which
-- is a function from names to values, the empty text where a variable is not set.
pub mod Checked
use olimpo.Common.{
  ℕ, zero, suc, ◌+◌, ◌-◌, ◌*◌, ◌^◌, Bool, true, false, not, ◌&&◌, ◌||◌, Option, none, some, List,
  [], ◌∷◌, ◌++◌, ltb, leb, ◌==◌, nat_eq, text_eq, Text, if◌then◌else◌, ℤ, pos, negsuc, ltb_ℤ,
}
use olimpo.Errors.{Result, ok, err}
use olimpo.Text.{text, trim_space, to_lower, is_empty}
use olimpo.Ddns.{trim_dot}
use olimpo.Network.Address.{is_digit}

pub record Config : Type 0 where
  pub listen_address : Text
  pub database_path : Text
  pub admin_login : Text
  pub allowed_domains : List Text
  pub default_ttl : ℤ
  pub allow_wildcard : Bool
  pub trust_proxy_headers : Bool
  pub allow_insecure_admin : Bool
  pub autocreate_policy : Text
  pub dns_server : Text
  pub nsupdate_binary : Text
  pub tsig_key_file : Text
  pub api_prefix : Text

-- The errors of Load, in the order of its tests
pub data ConfigError : Type 0 where
  no_admin_login unknown_policy no_domains ttl_out_of_range : ConfigError

abbrev pub Environment : Type 0
Environment = Text → Text

-- envOr
unfoldable pub env_or : Environment → Text → Text → Text
env_or env key fallback = let v = trim_space (env key) in if is_empty v then fallback else v

-- strings.Split(value, ",")
abbrev pub onto_first : ℕ → List Text → List Text
onto_first c [] = (c ∷ []) ∷ []
onto_first c (s ∷ rest) = (c ∷ s) ∷ rest

unfoldable pub split_comma : Text → List Text
split_comma [] = [] ∷ []
split_comma (c ∷ s) = let rest = split_comma s in if c == b',' then [] ∷ rest else onto_first c rest

-- The loop over the items.
unfoldable pub keep_items : List Text → List Text
keep_items [] = []
keep_items (item ∷ items) =
    let rest = keep_items items in
    let kept = trim_space (trim_dot (to_lower item)) in if is_empty kept then rest else kept ∷ rest

-- splitCSV
unfoldable pub split_csv : Text → List Text
unfolding split_comma keep_items trim_dot
split_csv value = keep_items (split_comma value)

-- strconv.Atoi: an optional sign, digits, and a value of 64 bits
unfoldable pub read_digits : ℕ → Text → Option ℕ
read_digits n [] = some n
read_digits n (c ∷ s) =
    let rest = read_digits (n * 10 + (c - 48)) s in if is_digit c then rest else none

abbrev pub negated : ℕ → ℤ
negated zero = pos 0
negated (suc n) = negsuc n

abbrev pub in_range : Bool → Option ℕ → Option ℤ
in_range negative none = none
in_range false (some n) = if ltb n (2 ^ 63) then some (pos n) else none
in_range true (some n) = if leb n (2 ^ 63) then some (negated n) else none

abbrev pub read_magnitude : Bool → Text → Option ℤ
unfolding read_digits
read_magnitude negative [] = none
read_magnitude negative (c ∷ s) = in_range negative (read_digits 0 (c ∷ s))

unfoldable pub atoi : Text → Option ℤ
unfolding read_digits
atoi [] = none
atoi (c ∷ s) =
    if c == b'-'
    then read_magnitude true s
    else if c == b'+'
    then read_magnitude false s
    else read_magnitude false (c ∷ s)

abbrev pub or_fallback {ℓ} : {A : Type ℓ} → A → Option A → A
or_fallback fallback none = fallback
or_fallback fallback (some a) = a

-- intEnv; where there is no value, Atoi has none either
unfoldable pub int_env : Environment → Text → ℤ → ℤ
unfolding atoi
int_env env key fallback =
    let v = trim_space (env key) in if is_empty v then fallback else or_fallback fallback (atoi v)

abbrev pub one_of : Text → List Text → Bool
one_of v [] = false
one_of v (w ∷ ws) = v == w || one_of v ws

-- strconv.ParseBool
unfoldable pub parse_bool : Text → Option Bool
parse_bool v =
    if one_of v (text "1" ∷ text "t" ∷ text "T" ∷ text "TRUE" ∷ text "true" ∷ text "True" ∷ [])
    then some true
    else if one_of v
        (text "0" ∷ text "f" ∷ text "F" ∷ text "FALSE" ∷ text "false" ∷ text "False" ∷ [])
    then some false
    else none

-- boolEnv
unfoldable pub bool_env : Environment → Text → Bool → Bool
unfolding parse_bool
bool_env env key fallback =
    let v = trim_space (env key) in
    if is_empty v then fallback else or_fallback fallback (parse_bool v)

-- `cfg`
unfoldable pub read_config : Environment → Config
unfolding env_or split_csv int_env bool_env
read_config env = record {
  listen_address = env_or env (text "HERMES_LISTEN") (text ":8080");
  database_path = env_or env (text "HERMES_DATABASE") (text "data/hermes.db");
  admin_login = env (text "HERMES_ADMIN_LOGIN");
  allowed_domains = split_csv (env (text "HERMES_DOMAINS"));
  default_ttl = int_env env (text "HERMES_DEFAULT_TTL") (pos 300);
  allow_wildcard = bool_env env (text "HERMES_ALLOW_WILDCARD") false;
  trust_proxy_headers = bool_env env (text "HERMES_TRUST_PROXY_HEADERS") false;
  allow_insecure_admin = bool_env env (text "HERMES_ALLOW_INSECURE_ADMIN") false;
  autocreate_policy = env_or env (text "HERMES_AUTOCREATE_POLICY") (text "device-prefix");
  dns_server = env_or env (text "HERMES_DNS_SERVER") (text "127.0.0.1");
  nsupdate_binary = env_or env (text "HERMES_NSUPDATE_BINARY") (text "/usr/bin/nsupdate");
  tsig_key_file = env (text "HERMES_TSIG_KEY_FILE");
  api_prefix = text "/api/v1";
}

abbrev pub no_items : List Text → Bool
no_items [] = true
no_items (x ∷ xs) = false

-- The tests of Load.
unfoldable pub check_config : Config → Result ConfigError Config
check_config cfg =
    if is_empty cfg.admin_login && not cfg.allow_insecure_admin
    then err ConfigError.no_admin_login
    else if not (cfg.autocreate_policy == text "device-prefix")
        && not (cfg.autocreate_policy == text "any")
    then err ConfigError.unknown_policy
    else if no_items cfg.allowed_domains
    then err ConfigError.no_domains
    else if ltb_ℤ cfg.default_ttl (pos 20) || ltb_ℤ (pos 86400) cfg.default_ttl
    then err ConfigError.ttl_out_of_range
    else ok cfg

-- Load; the configuration that it returns beside an error is not read
unfoldable pub load : Environment → Result ConfigError Config
unfolding read_config check_config
load env = check_config (read_config env)
