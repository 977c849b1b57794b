-- ===== src/Config/Settings.antt =====
-- `GetLoggerConfigFromViper`: the settings of the logger.
use go_acme_store.Common.{
  String, ◌≡◌, refl, Bool, true, false, ◌&&◌, ◌||◌, List, [], ◌∷◌, arith, if◌then◌else◌,
}
use go_acme_store.Host.Viper.{Viper}
use go_acme_store.Log.{LoggerConfig, get_default_logger_config}
use go_acme_store.Config.{
  StringKey, level, encoding, BoolKey, dev_mode, disable_sampling, disable_caller,
  disable_stacktrace, enable_color, set_string, set_bool, set_strings, set_bools,
  get_logger_config_from_viper,
}

abbrev is_string : StringKey → StringKey → Bool
is_string level level = true
is_string encoding encoding = true
is_string _ _ = false

abbrev is_bool : BoolKey → BoolKey → Bool
is_bool dev_mode dev_mode = true
is_bool disable_sampling disable_sampling = true
is_bool disable_caller disable_caller = true
is_bool disable_stacktrace disable_stacktrace = true
is_bool enable_color enable_color = true
is_bool _ _ = false

abbrev pub lists {ℓ} : {A : Type ℓ} → (A → A → Bool) → List A → A → Bool
lists test [] k = false
lists test (x ∷ xs) k = test k x || lists test xs k

-- The order runs through every key.
abbrev pub EveryString : List StringKey → Type 0
EveryString ks = (k : StringKey) → lists is_string ks k ≡ true

abbrev pub EveryBool : List BoolKey → Type 0
EveryBool ks = (k : BoolKey) → lists is_bool ks k ≡ true

-- A setting, where it is set.
abbrev setting {ℓ} : {A : Type ℓ} → Bool → A → A → A
setting set value default = if set then value else default

module _ (v : Viper) where
  set_strings_lem :
      (ks : List StringKey) (c : LoggerConfig)
      → set_strings v ks c ≡ record c {
        level =
            setting
              (lists is_string ks level && v.is_set "log.level")
              (v.get_string "log.level")
              c.level;
        encoding =
            setting
              (lists is_string ks encoding && v.is_set "log.encoding")
              (v.get_string "log.encoding")
              c.encoding;
      }
  unfolding set_strings
  set_strings_lem [] c = refl
  set_strings_lem (level ∷ ks) c = ground (arith, set_strings_lem ks (set_string v level c))
  set_strings_lem (encoding ∷ ks) c = ground (arith, set_strings_lem ks (set_string v encoding c))

  abbrev bool_setting : List BoolKey → BoolKey → String → Bool → Bool
  bool_setting ks k name default =
      setting (lists is_bool ks k && v.is_set name) (v.get_bool name) default

  set_bools_lem :
      (ks : List BoolKey) (c : LoggerConfig)
      → set_bools v ks c ≡ record c {
        dev_mode = bool_setting ks dev_mode "log.dev_mode" c.dev_mode;
        disable_sampling =
            bool_setting ks disable_sampling "log.disable_sampling" c.disable_sampling;
        disable_caller = bool_setting ks disable_caller "log.disable_caller" c.disable_caller;
        disable_stacktrace =
            bool_setting ks disable_stacktrace "log.disable_stacktrace" c.disable_stacktrace;
        enable_color = bool_setting ks enable_color "log.enable_color" c.enable_color;
      }
  unfolding set_bools
  set_bools_lem [] c = refl
  set_bools_lem (dev_mode ∷ ks) c = ground (arith, set_bools_lem ks (set_bool v dev_mode c))
  set_bools_lem (disable_sampling ∷ ks) c =
      ground (arith, set_bools_lem ks (set_bool v disable_sampling c))
  set_bools_lem (disable_caller ∷ ks) c =
      ground (arith, set_bools_lem ks (set_bool v disable_caller c))
  set_bools_lem (disable_stacktrace ∷ ks) c =
      ground (arith, set_bools_lem ks (set_bool v disable_stacktrace c))
  set_bools_lem (enable_color ∷ ks) c = ground (arith, set_bools_lem ks (set_bool v enable_color c))

  -- Go may run through the two maps of GetLoggerConfigFromViper in any order: every order that
  -- meets each key gives the same configuration, where a setting that is set replaces the
  -- default.
  pub logger_config_any_order :
      (strings : List StringKey) (bools : List BoolKey)
      → EveryString strings
      → EveryBool bools
      → get_logger_config_from_viper strings bools v ≡ record {
        level = setting (v.is_set "log.level") (v.get_string "log.level") "debug";
        encoding = setting (v.is_set "log.encoding") (v.get_string "log.encoding") "console";
        dev_mode = setting (v.is_set "log.dev_mode") (v.get_bool "log.dev_mode") false;
        enable_color = setting (v.is_set "log.enable_color") (v.get_bool "log.enable_color") true;
        disable_sampling =
            setting (v.is_set "log.disable_sampling") (v.get_bool "log.disable_sampling") false;
        disable_caller =
            setting (v.is_set "log.disable_caller") (v.get_bool "log.disable_caller") false;
        disable_stacktrace =
            setting (v.is_set "log.disable_stacktrace") (v.get_bool "log.disable_stacktrace") true;
      }
  unfolding get_logger_config_from_viper get_default_logger_config
  logger_config_any_order strings bools hs hb = rw (
    set_strings_lem strings get_default_logger_config,
    set_bools_lem bools,
    hs level,
    hs encoding,
    hb dev_mode,
    hb disable_sampling,
    hb disable_caller,
    hb disable_stacktrace,
    hb enable_color,
  )
