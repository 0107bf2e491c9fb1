-- ===== src/Start.antt =====
-- products/hermes/cmd/hermesddns/main.go: what comes before the server listens.
use olimpo.Errors.{Error, Result, ok, err}
use olimpo.Gorm.{Gorm}
use olimpo.Model.{Database}
use olimpo.Config.{Config, ConfigError, Environment, load}
use olimpo.Domains.{ensure_domains}

-- Why the program ends before it listens.
pub data StartError : Type 0 where
  configuration : ConfigError → StartError
  domains : Error → StartError

abbrev pub with_config :
    (Config → Database → Result StartError Config × Database)
    → Result ConfigError Config
    → Database
    → Result StartError Config × Database
with_config next (ok cfg) s = next cfg s
with_config next (err e) s = (err (configuration e), s)

abbrev pub seeded :
    Config → Result Error (Unit {0}) × Database → Result StartError Config × Database
seeded cfg (ok u, s) = (ok cfg, s)
seeded cfg (err e, s) = (err (domains e), s)

-- main, with the database open: the configuration that the server is built of
unfoldable pub start_program : Gorm → Environment → Database → Result StartError Config × Database
unfolding load
start_program db env =
    with_config
      (λ cfg s.
        seeded cfg (ensure_domains db cfg.allowed_domains cfg.default_ttl cfg.allow_wildcard s))
      (load env)
