-- ===== src/Tests/Startup.antt =====
-- The start of the program: the logger, the configuration and the keystore.

use go_acme_store.Common.{
  ℕ, ◌+◌, String, String-discrete, ◌≡◌, ◌≢◌, ◌↔◌, refl, true, false, none, some, List, [], ◌∷◌, ok,
  err, Exec, if◌then◌else◌, ◌==◌, ltb,
}
use go_acme_store.Host.Viper.{Viper, pos}
use go_acme_store.Log.{LoggerConfig, get_default_logger_config, Zap, zap_config, set_encoding}
use go_acme_store.Log.Laws.{Builds}
use go_acme_store.Config.{
  loaded, load_failed, ViperSetup, ConfigHost, viper_setup, StringKey, level, encoding, BoolKey,
  dev_mode, disable_sampling, disable_caller, disable_stacktrace, enable_color,
  get_logger_config_from_viper,
}
use go_acme_store.Meta.{Build, Runtime}
use go_acme_store.Config.Settings.{EveryString, EveryBool, logger_config_any_order}
use go_acme_store.Startup.{
  Flags, Setting, defaults, config_file, Started, serving, main, keystore_retry_loop,
}
use go_acme_store.Startup.Checks.{BackendIsSet, memory}
use go_acme_store.Startup.Serving.{main_serves_iff}
use go_acme_store.Startup.Retry.{retry_first}
use go_acme_store.Keystore.Select.{Outside, backend_name, opening_panics}
use go_acme_store.Keystore.Vault.Open.{client_panics}
use go_acme_store.Tests.VaultWorld.{host}
use go_acme_store.Tests.FileWorld
use go_acme_store.Tests.FileWorld.{blank}

-- A library of loggers that knows two levels. A logger is the name of its level.
abbrev zap : Zap
zap = record {
  Level = String;
  Encoder = String;
  Sampling = Unit;
  Logger = String;
  new_production_config = record {
    sampling = some tt;
    level = "info";
    encoding = "json";
    encode_level = "lower case";
    encode_time = "seconds";
    message_key = "msg";
    level_key = "level";
    caller_key = "caller";
    console_separator = "";
    name_key = "logger";
    development = false;
    disable_caller = false;
    disable_stacktrace = false;
  };
  parse_level =
      λ s. if s == "debug" then ok s else if s == "info" then ok s else err "unknown level";
  capital_color = "colors";
  iso8601 = "a date";
  build = λ c. ok c.level;
  with_fatal_traces = λ l. l;
}

zap-Builds : Builds zap get_default_logger_config "debug"
unfolding get_default_logger_config zap_config set_encoding String-discrete
zap-Builds = ("debug", refl, refl)

-- A misspelled level, on the memory back end.
abbrev settings : Viper
settings = record {
  get_string =
      λ k. if k == "log.level" then "trace" else if k == "keystore.backend" then "memory" else "x";
  get_bool = λ _. true;
  is_set = λ k. if k == "log.level" then true else k == "log.dev_mode";
  get_duration = λ _. pos 0;
}

abbrev strings : List StringKey
strings = encoding ∷ level ∷ []

abbrev bools : List BoolKey
bools = enable_color ∷ dev_mode ∷ disable_caller ∷ disable_stacktrace ∷ disable_sampling ∷ []

every_string : EveryString strings
every_string level = refl
every_string encoding = refl

every_bool : EveryBool bools
every_bool dev_mode = refl
every_bool disable_sampling = refl
every_bool disable_caller = refl
every_bool disable_stacktrace = refl
every_bool enable_color = refl

logger_config_any_order_example :
    get_logger_config_from_viper strings bools settings
    ≡ record get_default_logger_config { level = "trace"; dev_mode = true }
unfolding get_default_logger_config String-discrete
logger_config_any_order_example =
    logger_config_any_order settings strings bools every_string every_bool

abbrev misspelled : LoggerConfig
misspelled = record get_default_logger_config { level = "trace" }

abbrev config_host : List (String × Setting) → ConfigHost
config_host _ = record {
  to_upper = λ s. s;
  read_in_config = λ s. elim s.config_file [ none ↦ load_failed "no file" | some f ↦ loaded f ];
  configured = λ _. settings;
}

abbrev flags : Flags
flags = record { config = ""; version = false }

abbrev setup : ViperSetup
setup = viper_setup (config_host defaults) "acme-store" (config_file "" "config.yml")

abbrev outside : Outside FileWorld.host host
outside = record { disk = blank; server = [] }

abbrev build : Build
build = record { name = ""; version = "1.0"; commit_sha = "abc"; build_date = "today" }

abbrev runtime : Runtime
runtime = record { version = "go1.24"; compiler = "gc"; goos = "linux"; goarch = "amd64" }

main_serves_iff_example :
    ((s : Started zap FileWorld.host host) × (main zap FileWorld.host host config_host strings bools
          runtime flags "config.yml" build ""
          (ok "key")
          outside
        ≡ serving s))
    ↔ ((false ≡ false)
        × ((e : String) → (config_host defaults).read_in_config setup ≢ load_failed e)
        × BackendIsSet settings
        × (settings.get_string "acme.dns_provider" ≢ "")
        × (settings.get_string "keystore.backend" ≡ "vault" → host.makes_client "x" ≡ true))
unfolding String-discrete
main_serves_iff_example =
    main_serves_iff zap FileWorld.host host "debug" zap-Builds config_host strings bools runtime
      flags "config.yml" build "" (ok "key") outside

-- The program does start here.
settings-IsServed :
    (s : Started zap FileWorld.host host) × (main zap FileWorld.host host config_host strings bools
        runtime flags "config.yml" build ""
        (ok "key")
        outside
      ≡ serving s)
unfolding viper_setup config_file String-discrete
settings-IsServed =
    (main_serves_iff zap FileWorld.host host "debug" zap-Builds config_host strings bools runtime
        flags "config.yml" build "" (ok "key") outside).1
      (refl, λ e p. cc, memory refl, λ e. cc, λ e. cc)

-- An address that the Vault client refuses.
abbrev refused : Viper
refused = record settings {
  get_string =
      λ k. if k == "keystore.backend" then "vault" else if k == "vault.address" then ":" else "";
}

refused_panics : opening_panics FileWorld.host host refused true ≡ true
unfolding opening_panics backend_name client_panics String-discrete
refused_panics = refl

-- A server that answers at the third attempt. The number of attempts is the outside.
abbrev attempt : Exec ℕ String
attempt n = (if ltb n 2 then err "unavailable" else ok "keystore", n + 1)

abbrev quiet : (ℕ → ℕ) × (String → String)
quiet = (λ n. n, λ s. s)

retry_first_example :
    (keystore_retry_loop attempt (quiet ∷ quiet ∷ quiet ∷ quiet ∷ []) (none, 0)).0 ≡ some "keystore"
retry_first_example =
    retry_first attempt (quiet ∷ quiet ∷ []) (quiet ∷ []) (λ n. n) (λ s. s) "keystore" 0
      (("unavailable", refl), (("unavailable", refl), tt)) refl
