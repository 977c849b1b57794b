-- ===== src/Startup.antt =====
-- cmd/acme-store/main.go and cmd/acme-store/keystore.go: the start of the server, from the flags to
-- the keystore, and the loop that opens the keystore later if it could not be opened at once.
pub mod Checks
pub mod Serving
pub mod Retry
use go_acme_store.Common.{
  String, ◌<>◌, Bool, true, false, Option, none, some, List, [], ◌∷◌, ◌++◌, Result, ok, err, Exec,
  ◌==◌, if◌then◌else◌,
}
use go_acme_store.Host.Viper.{Viper}
use go_acme_store.Keystore.FileHost.{FileHost}
use go_acme_store.Keystore.VaultHost.{VaultHost}
use go_acme_store.Keystore.Select.{Opened, Outside, opening_panics, new_keystore_from_viper}
use go_acme_store.Log.{LoggerConfig, Zap, Run, running, exited}
use go_acme_store.Config.{ConfigHost, StringKey, BoolKey, must_init_viper_and_logger}
use go_acme_store.Meta.{Build, Runtime, get_app_metadata, to_string}

pub record Flags : Type 0 where
  pub config : String
  pub version : Bool

pub data Setting : Type 0 where
  text : String → Setting
  toggle : Bool → Setting

-- The calls of `viper.SetDefault`.
unfoldable pub defaults : List (String × Setting)
defaults =
    ("server.bind_address", text "0.0.0.0")
    ∷ ("server.bind_port", text "8080")
    ∷ ("acme.directory", text "https://acme-staging-v02.api.letsencrypt.org/directory")
    ∷ ("acme.account_email", text "acme-store@devnull")
    ∷ ("vault.tls_skip_verify", toggle false)
    ∷ ("keystore.backend", text "vault")
    ∷ []

-- The flag, or else the environment's CONFIG_FILE.
unfoldable pub config_file : String → String → String
config_file given env = if given == "" then env else given

-- `keysThatCannotBeEmpty` for a back end.
unfoldable pub required_keys : String → Run (List String)
required_keys backend =
    let always = "acme.dns_provider" ∷ [] in
    if backend == "vault"
    then running (always ++ ("vault.address" ∷ "vault.kv2_mount" ∷ "vault.kv2_secret_path" ∷ []))
    else if backend == "filesystem"
    then running (always ++ ("filesystem.base_path" ∷ []))
    else if backend == "memory"
    then running always
    else exited
        ("unsupported keystore backend: " <> (backend <> " (supported: vault, filesystem, memory)"))

-- The loop over the keys.
unfoldable pub check_keys : Viper → List String → Run (Unit {0})
check_keys v [] = running tt
check_keys v (key ∷ keys) =
    let rest = check_keys v keys in
    if v.get_string key == "" then exited (key <> " cannot be empty") else rest

unfoldable pub check_config : Viper → Run (Unit {0})
unfolding required_keys check_keys
check_config v = elim (required_keys (v.get_string "keystore.backend")) [
  | running keys ↦ check_keys v keys
  | exited m ↦ exited m
]

module _ {W S : Type 0} where
  -- `initKeystore`, for what the opening of the keystore does: the global `ks` and the outside.
  unfoldable pub init_keystore : Exec W S → W → Option S × W
  init_keystore opening w =
      let (r, w') = opening w in elim r [ ok s ↦ (some s, w') | err e ↦ (none, w') ]

  -- One tick of `keystoreRetryLoop`.
  unfoldable pub retry_tick : Exec W S → Option S × W → Option S × W
  unfolding init_keystore
  retry_tick opening (none, w) = init_keystore opening w
  retry_tick opening (some s, w) = (some s, w)

  -- The loop, for what happens before each tick to the outside and to a keystore that is there.
  unfoldable pub keystore_retry_loop :
      Exec W S → List ((W → W) × (S → S)) → Option S × W → Option S × W
  unfolding retry_tick
  keystore_retry_loop opening [] x = x
  keystore_retry_loop opening ((f, g) ∷ between) (none, w) =
      keystore_retry_loop opening between (retry_tick opening (none, f w))
  keystore_retry_loop opening ((f, g) ∷ between) (some s, w) =
      keystore_retry_loop opening between (retry_tick opening (some (g s), f w))

module _ (z : Zap) (fh : FileHost) (vh : VaultHost) where
  -- What the daemon and the HTTP server are started with.
  pub record Started : Type 0 where
    pub settings : Viper
    pub logger_config : LoggerConfig
    pub logger : z.Logger
    pub build : Build
    pub ks : Option Opened
    pub outside : Outside fh vh

  pub data Main : Type 0 where
    shown : String → Main
    stopped : String → Main
    panicked : Main
    serving : Started → Main

  -- After the checks. `new_key` is what `GenerateECKeyPEM` returns.
  unfoldable pub launch :
      Result String → Outside fh vh → Viper × LoggerConfig × z.Logger × Build → Started
  unfolding init_keystore
  launch new_key w (v, c, logger, build) =
      let opening =
        new_keystore_from_viper fh vh v (v.get_string "acme.account_email") true new_key in
      let (ks, w') = init_keystore opening w in
      record {
        settings = v;
        logger_config = c;
        logger = logger;
        build = build;
        ks = ks;
        outside = w';
      }

  -- After the configuration was read.
  unfoldable pub serve :
      Result String → Outside fh vh → Viper × LoggerConfig × z.Logger × Build → Main
  unfolding check_config launch opening_panics
  serve new_key w (v, c, logger, build) = elim (check_config v) [
    | exited m ↦ stopped m
    | running _ ↦
        if opening_panics fh vh v true
        then panicked
        else serving (launch new_key w (v, c, logger, build))
  ]

  -- `main`. The configuration library is given the defaults, `env` is CONFIG_FILE.
  unfoldable pub main :
      (List (String × Setting) → ConfigHost)
      → List StringKey
      → List BoolKey
      → Runtime
      → Flags
      → String
      → Build
      → z.Logger
      → Result String
      → Outside fh vh
      → Main
  unfolding serve config_file
  main host strings bools r flags env build logger new_key w =
      if flags.version
      then shown (to_string (get_app_metadata r build))
      else elim (must_init_viper_and_logger z (host defaults) strings bools "acme-store"
          (config_file flags.config env) build logger) [
            | exited m ↦ stopped m
            | running x ↦ serve new_key w x
          ]
