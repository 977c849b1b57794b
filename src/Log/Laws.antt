-- ===== src/Log/Laws.antt =====
-- What `InitLogger` does to the global logger.
use go_acme_store.Common.{
  String, ◌<>◌, ◌≡◌, some, ok, err, arith, Result-cases, inl, inr, ◌⊎◌, if◌then◌else◌,
}
use go_acme_store.Log.{LoggerConfig, Zap, zap_config, init_logger}

module _ (z : Zap) where
  -- A configuration whose level is known and which zap accepts.
  abbrev pub Builds : LoggerConfig → z.Logger → Type 0
  Builds c built =
      (level : z.Level) × (z.parse_level c.level ≡ ok level)
      × (z.build (zap_config z c level) ≡ ok built)

  -- `InitLogger` puts the logger that is built in the place of the global one, with traces of
  -- fatal errors if there are no others; or it returns an error and leaves the global one alone.
  pub init_logger-cases :
      (c : LoggerConfig) (logger : z.Logger)
      → ((built : z.Logger) × Builds c built
          × (init_logger z (some c) logger
              ≡ (ok tt, if c.disable_stacktrace then z.with_fatal_traces built else built)))
        ⊎ ((e : String) × (init_logger z (some c) logger ≡ (err e, logger)))
  unfolding init_logger
  init_logger-cases c logger = elim (Result-cases (z.parse_level c.level)) [
    | inr (e, p) ↦ inr ("could not determine log level: " <> e, ground arith)
    | inl (level, p) ↦ elim (Result-cases (z.build (zap_config z c level))) [
      | inr (e, q) ↦ inr ("could not build log config: " <> e, ground arith)
      | inl (built, q) ↦ inl (built, (level, p, q), ground arith)
    ]
  ]
