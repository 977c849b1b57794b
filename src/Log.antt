-- ===== src/Log.antt =====
-- pkg/log/logger.go. The zap library is a parameter; the global loggers are the state.
pub mod Laws
use go_acme_store.Common.{
  String, ◌<>◌, Bool, true, false, ◌&&◌, Option, none, some, Result, ok, err, ◌==◌, if◌then◌else◌,
}

pub record LoggerConfig : Type 0 where
  pub level : String
  pub encoding : String
  pub dev_mode : Bool
  pub enable_color : Bool
  pub disable_sampling : Bool
  pub disable_caller : Bool
  pub disable_stacktrace : Bool

unfoldable pub get_default_logger_config : LoggerConfig
get_default_logger_config = record {
  level = "debug";
  encoding = "console";
  dev_mode = false;
  enable_color = true;
  disable_sampling = false;
  disable_caller = false;
  disable_stacktrace = true;
}

-- The fields of `zap.Config` that the program sets, over zap's own types.
pub record ZapConfig (Level Encoder Sampling : Type 0) : Type 0 where
  pub sampling : Option Sampling
  pub level : Level
  pub encoding : String
  pub encode_level : Encoder
  pub encode_time : Encoder
  pub message_key : String
  pub level_key : String
  pub caller_key : String
  pub console_separator : String
  pub name_key : String
  pub development : Bool
  pub disable_caller : Bool
  pub disable_stacktrace : Bool

pub record Zap : Type 1 where
  pub Level : Type 0
  pub Encoder : Type 0
  pub Sampling : Type 0
  pub Logger : Type 0
  pub new_production_config : ZapConfig Level Encoder Sampling
  -- `Level.Set`
  pub parse_level : String → Result Level
  pub capital_color : Encoder
  pub iso8601 : Encoder
  pub build : ZapConfig Level Encoder Sampling → Result Logger
  -- `WithOptions(zap.AddStacktrace(zap.FatalLevel))`
  pub with_fatal_traces : Logger → Logger

-- What `main` goes on with, or the end of the process with a message.
pub data Run {ℓ} (A : Type ℓ) : Type ℓ where
  running : A → Run A
  exited : String → Run A

module _ (z : Zap) where
  abbrev pub Config : Type 0
  Config = ZapConfig z.Level z.Encoder z.Sampling

  -- The `switch` on the encoding, which has its default case only.
  unfoldable pub set_encoding : LoggerConfig → Config → Config
  set_encoding c k =
      let console = c.encoding == "console" in
      record k {
        encoding = c.encoding;
        encode_level = if c.enable_color && console then z.capital_color else k.encode_level;
        disable_stacktrace = c.disable_stacktrace;
        encode_time = if console then z.iso8601 else k.encode_time;
        message_key = "msg";
        level_key = "level";
        caller_key = "caller";
        console_separator = " ";
        name_key = "app";
      }

  -- The configuration that is built, for a level.
  unfoldable pub zap_config : LoggerConfig → z.Level → Config
  unfolding set_encoding
  zap_config c level =
      let base = z.new_production_config in
      let sampled = record base { sampling = if c.disable_sampling then none else base.sampling } in
      record (set_encoding c (record sampled { level = level })) {
        development = c.dev_mode;
        disable_caller = c.disable_caller;
      }

  -- `none` is a nil pointer. The logger is the new value of the globals.
  unfoldable pub init_logger : Option LoggerConfig → z.Logger → Result (Unit {0}) × z.Logger
  unfolding zap_config
  init_logger none logger = (err "LoggerConfig cannot be nil", logger)
  init_logger (some c) logger = elim (z.parse_level c.level) [
    | err e ↦ (err ("could not determine log level: " <> e), logger)
    | ok level ↦ elim (z.build (zap_config c level)) [
      | err e ↦ (err ("could not build log config: " <> e), logger)
      | ok built ↦ (ok tt, if c.disable_stacktrace then z.with_fatal_traces built else built)
    ]
  ]

  unfoldable pub must_init_logger : Option LoggerConfig → z.Logger → Run z.Logger
  unfolding init_logger
  must_init_logger c logger =
      let (r, logger') = init_logger c logger in
      elim r [ ok _ ↦ running logger' | err e ↦ exited ("could not init logger: " <> e) ]

  unfoldable pub must_init_default_logger : z.Logger → Run z.Logger
  unfolding init_logger get_default_logger_config
  must_init_default_logger logger =
      let (r, logger') = init_logger (some get_default_logger_config) logger in
      elim r [ ok _ ↦ running logger' | err e ↦ exited ("could not configure logger: " <> e) ]
