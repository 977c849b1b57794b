-- ===== src/Config.antt =====
-- pkg/config/viper.go. The configuration library answers by `Viper`; how it
-- reads its file is a parameter.
pub mod Laws
pub mod Settings
use Prim.Native.String
use Prim.Native.Char.{Char, code}
use Prim.Native.Nat.{compare, Ordering}
use go_acme_store.Common.{
  String, ◌<>◌, Bool, true, false, ◌||◌, Option, none, some, List, [], ◌∷◌, Result, ok, err, ◌==◌,
  if◌then◌else◌,
}
use go_acme_store.Host.Viper.{Viper}
use go_acme_store.Meta.{Build}
use go_acme_store.Log.{
  LoggerConfig, get_default_logger_config, Zap, init_logger, Run, running, exited, must_init_logger,
}

is_dash : Char → Bool
is_dash c = elim (compare (code c) b'-') [ Ordering.eq ↦ true | _ ↦ false ]

-- `strings.Replace(appName, "-", "", -1)`
unfoldable pub without_dashes : String → String
unfolding is_dash
without_dashes String.[] = ""
without_dashes (String.◌∷◌ c s) =
    let rest = without_dashes s in if is_dash c then rest else String.◌∷◌ c rest

-- What `viper.ReadInConfig` returns, with the file that was used.
pub data Loaded : Type 0 where
  loaded : String → Loaded
  file_not_found : Loaded
  load_failed : String → Loaded

-- How the configuration library is set up.
pub record ViperSetup : Type 0 where
  pub env_prefix : String
  -- a text and what replaces it
  pub env_key_replacer : String × String
  pub automatic_env : Bool
  pub config_type : String
  pub config_name : String
  pub config_paths : List String
  -- `SetConfigFile`, if the user names a file
  pub config_file : Option String

pub record ConfigHost : Type 0 where
  -- `strings.ToUpper`
  pub to_upper : String → String
  -- `ReadInConfig`, and the configuration from then on
  pub read_in_config : ViperSetup → Loaded
  pub configured : ViperSetup → Viper

unfoldable pub viper_setup : ConfigHost → String → String → ViperSetup
unfolding without_dashes
viper_setup h app_name cfg_file = record {
  env_prefix = h.to_upper (without_dashes app_name);
  env_key_replacer = (".", "_");
  automatic_env = true;
  config_type = "yaml";
  config_name = "config";
  config_paths = "./" ∷ "./configs" ∷ "/etc/acme-store" ∷ [];
  config_file = if cfg_file == "" then none else some cfg_file;
}

unfoldable pub must_init_viper : ConfigHost → String → String → Run Viper
unfolding viper_setup
must_init_viper h app_name cfg_file =
    let setup = viper_setup h app_name cfg_file in
    elim (h.read_in_config setup) [
      | loaded file ↦ running (h.configured setup)
      | file_not_found ↦ running (h.configured setup)
      | load_failed e ↦ exited ("unable to load configuration file: " <> e)
    ]

-- The keys of the two maps of `GetLoggerConfigFromViper`.
pub data StringKey : Type 0 where
  level : StringKey
  encoding : StringKey

pub data BoolKey : Type 0 where
  dev_mode : BoolKey
  disable_sampling : BoolKey
  disable_caller : BoolKey
  disable_stacktrace : BoolKey
  enable_color : BoolKey

unfoldable pub set_string : Viper → StringKey → LoggerConfig → LoggerConfig
set_string v level c =
    if v.is_set "log.level" then record c { level = v.get_string "log.level" } else c
set_string v encoding c =
    if v.is_set "log.encoding" then record c { encoding = v.get_string "log.encoding" } else c

unfoldable pub set_bool : Viper → BoolKey → LoggerConfig → LoggerConfig
set_bool v dev_mode c =
    if v.is_set "log.dev_mode" then record c { dev_mode = v.get_bool "log.dev_mode" } else c
set_bool v disable_sampling c =
    if v.is_set "log.disable_sampling"
    then record c { disable_sampling = v.get_bool "log.disable_sampling" }
    else c
set_bool v disable_caller c =
    if v.is_set "log.disable_caller"
    then record c { disable_caller = v.get_bool "log.disable_caller" }
    else c
set_bool v disable_stacktrace c =
    if v.is_set "log.disable_stacktrace"
    then record c { disable_stacktrace = v.get_bool "log.disable_stacktrace" }
    else c
set_bool v enable_color c =
    if v.is_set "log.enable_color"
    then record c { enable_color = v.get_bool "log.enable_color" }
    else c

-- The two loops. Go iterates over a map in any order: the orders are arguments.
unfoldable pub set_strings : Viper → List StringKey → LoggerConfig → LoggerConfig
unfolding set_string
set_strings v [] c = c
set_strings v (k ∷ ks) c = set_strings v ks (set_string v k c)

unfoldable pub set_bools : Viper → List BoolKey → LoggerConfig → LoggerConfig
unfolding set_bool
set_bools v [] c = c
set_bools v (k ∷ ks) c = set_bools v ks (set_bool v k c)

unfoldable pub get_logger_config_from_viper : List StringKey → List BoolKey → Viper → LoggerConfig
unfolding set_strings set_bools get_default_logger_config
get_logger_config_from_viper strings bools v =
    set_bools v bools (set_strings v strings get_default_logger_config)

-- `if meta.Name == "unknown" || meta.Name == "" { meta.Name = appName }`
unfoldable pub named : String → Build → Build
named app_name build =
    if build.name == "unknown" || build.name == "" then record build { name = app_name } else build

module _ (z : Zap) where
  -- The configuration that is used, and the logger.
  unfoldable pub init_logger_fallback_to_default :
      LoggerConfig → z.Logger → Run (LoggerConfig × z.Logger)
  unfolding init_logger must_init_logger
  init_logger_fallback_to_default c logger =
      let (r, logger') = init_logger z (some c) logger in
      elim r [
        | ok _ ↦ running (c, logger')
        | err e ↦ elim (must_init_logger z (some get_default_logger_config) logger') [
          | running logger'' ↦ running (get_default_logger_config, logger'')
          | exited m ↦ exited m
        ]
      ]

  -- The whole start: the configuration, the logger, and the application's name.
  unfoldable pub must_init_viper_and_logger :
      ConfigHost
      → List StringKey
      → List BoolKey
      → String
      → String
      → Build
      → z.Logger
      → Run (Viper × LoggerConfig × z.Logger × Build)
  unfolding named must_init_viper init_logger_fallback_to_default get_logger_config_from_viper
  must_init_viper_and_logger h strings bools app_name cfg_file build logger =
      elim (must_init_viper h app_name cfg_file) [
        | exited m ↦ exited m
        | running v ↦
            elim (init_logger_fallback_to_default (get_logger_config_from_viper strings bools v)
              logger) [
                | exited m ↦ exited m
                | running (c, logger') ↦ running (v, c, logger', named app_name build)
              ]
      ]
