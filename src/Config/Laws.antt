-- ===== src/Config/Laws.antt =====
-- The start of the program: the configuration and the logger.
use go_acme_store.Common.{String, ◌<>◌, ◌≡◌, ◌≢◌, ◌⊎◌, refl, some, List, arith, inl, inr}
use go_acme_store.Host.Viper.{Viper}
use go_acme_store.Log.{
  LoggerConfig, get_default_logger_config, Zap, init_logger, Run, running, exited, must_init_logger,
}
use go_acme_store.Log.Laws.{Builds, init_logger-cases}
use go_acme_store.Config.{
  ConfigHost, ViperSetup, Loaded, loaded, file_not_found, load_failed, viper_setup, must_init_viper,
  StringKey, BoolKey, get_logger_config_from_viper, init_logger_fallback_to_default,
  must_init_viper_and_logger, named,
}
use go_acme_store.Meta.{Build}

pub Loaded-cases :
    (r : Loaded) → ((e : String) × (r ≡ load_failed e)) ⊎ ((e : String) → r ≢ load_failed e)
Loaded-cases (loaded file) = inr (λ e p. cc)
Loaded-cases file_not_found = inr (λ e p. cc)
Loaded-cases (load_failed e) = inl (e, refl)

running_of :
    (v : Viper) (r : Loaded)
    → ((e : String) → r ≢ load_failed e)
    → ◌≡◌ {A = Run Viper}
        (elim r [
          | loaded file ↦ running v
          | file_not_found ↦ running v
          | load_failed e ↦ exited ("unable to load configuration file: " <> e)
        ])
        (running v)
running_of v (loaded file) h = refl
running_of v file_not_found h = refl
running_of v (load_failed e) h = absurd (h e refl)

module _ (z : Zap) (standard : z.Logger)
    (accepted : Builds z get_default_logger_config standard) where
  -- The default configuration always gives a logger.
  must_default :
      (logger : z.Logger)
      → (built : z.Logger) × (must_init_logger z (some get_default_logger_config) logger
          ≡ running built)
  unfolding must_init_logger init_logger
  must_default logger =
      let (l, p, q) = accepted in
      ((init_logger z (some get_default_logger_config) logger).1, ground arith)

  -- Where zap accepts the default configuration, the start of the logger ends with a logger, for
  -- the configuration that was given or else for the default one.
  pub fallback_total :
      (c : LoggerConfig) (logger : z.Logger)
      → (used : LoggerConfig) × (built : z.Logger) × (init_logger_fallback_to_default z c logger
          ≡ running (used, built))
        × ((used ≡ c) ⊎ (used ≡ get_default_logger_config))
  unfolding init_logger_fallback_to_default
  fallback_total c logger = elim (init_logger-cases z c logger) [
    | inl (built, b, e) ↦ (c, (init_logger z (some c) logger).1, ground arith, inl refl)
    | inr (m, e) ↦
        let (built, d) = must_default logger in
        (get_default_logger_config, built, ground (arith, e, d), inr refl)
  ]

  module _ (h : ConfigHost) (strings : List StringKey) (bools : List BoolKey)
      (app_name cfg_file : String) (build : Build) (logger : z.Logger) where
    abbrev setup : ViperSetup
    setup = viper_setup h app_name cfg_file

    abbrev started : Run (Viper × LoggerConfig × z.Logger × Build)
    started = must_init_viper_and_logger z h strings bools app_name cfg_file build logger

    -- The start succeeds with the settings that were read.
    pub starts :
        ((e : String) → h.read_in_config setup ≢ load_failed e)
        → (used : LoggerConfig) × (built : z.Logger) × (started
            ≡ running (h.configured setup, used, built, named app_name build))
    unfolding must_init_viper_and_logger must_init_viper
    starts fine =
        let v : Viper = h.configured setup in
        let (used, built, e, which) =
          fallback_total (get_logger_config_from_viper strings bools v) logger in
        (used, built, ground (arith, e, running_of v (h.read_in_config setup) fine))

    pub start_fails :
        (m : String)
        → h.read_in_config setup ≡ load_failed m
        → started ≡ exited ("unable to load configuration file: " <> m)
    unfolding must_init_viper_and_logger must_init_viper
    start_fails m failed = ground arith
