-- ===== src/Fetcher/Daemon.antt =====
-- cmd/acme-store-fetcher/main.go: `main` and `runDaemon`. The server may answer differently at each
-- moment.
pub mod Recovery
use go_acme_store.Common.{
  ℕ, String, ◌<>◌, Bool, Option, none, some, List, [], ◌∷◌, Result, ok, err, ◌==◌, if◌then◌else◌,
}
use go_acme_store.Host.Paths.{FilePath}
use go_acme_store.Host.Viper.{Viper, ℤ}
use go_acme_store.Log.{Zap, Run, running, exited}
use go_acme_store.Config.{ConfigHost, StringKey, BoolKey, must_init_viper_and_logger}
use go_acme_store.Meta.{Build, Runtime, get_app_metadata, to_string}
use go_acme_store.Startup.{config_file}
use go_acme_store.Fetcher.Client.{
  Http, check_api_health, get_managed_domains, get_all_certs, get_private_key,
}
use go_acme_store.Fetcher.Files.{Host}
use go_acme_store.Fetcher.Settings.{text_setting, daemon_mode, check_interval}
use go_acme_store.Fetcher.Traefik.{TraefikTls}
use go_acme_store.Fetcher.Fetch.{Answers, perform_fetch}

pub record Flags : Type 0 where
  pub config : String
  pub output_dir : String
  pub traefik_config : String
  pub daemon : Bool
  pub version : Bool

-- The three requests of a fetch.
abbrev pub answers : Http → String → Answers
answers http api_url = record {
  managed_domains = get_managed_domains http api_url;
  all_certs = get_all_certs http api_url;
  private_key = get_private_key http api_url;
}

-- `path` reads a path as the operating system does.
module _ (h : Host) (path : String → FilePath) (marshal : TraefikTls → Result String)
    {Moment : Type 0} (http : Moment → Http) where
  -- What wakes the daemon.
  pub data Alarm : Type 0 where
    tick : Moment → Alarm
    signal : Alarm

  pub data End : Type 0 where
    shown : String → End
    fatal : String → h.Disk → End
    ended : ℕ → h.Disk → End
    -- the daemon, with the interval of its ticker
    interrupted : ℤ → h.Disk → End
    waiting : ℤ → h.Disk → End

  -- The empty path stands for no Traefik file.
  unfoldable pub traefik_path : String → Option FilePath
  traefik_path s = if s == "" then none else some (path s)

  unfoldable pub fetch_at : String → String → String → Moment → h.Disk → ℕ × h.Disk
  unfolding traefik_path
  fetch_at api_url output_dir traefik m disk =
      perform_fetch h (answers (http m) api_url) (path output_dir) marshal (traefik_path traefik)
        disk

  module _ (api_url output_dir traefik : String) where
    unfoldable pub daemon_loop : ℤ → List Alarm → h.Disk → End
    unfolding fetch_at
    daemon_loop interval [] disk = waiting interval disk
    daemon_loop interval (tick m ∷ alarms) disk =
        daemon_loop interval alarms (fetch_at api_url output_dir traefik m disk).1
    daemon_loop interval (signal ∷ alarms) disk = interrupted interval disk

    -- The initial fetch, and then one at every tick. Their exit codes are dropped.
    unfoldable pub run_daemon : ℤ → Moment → List Alarm → h.Disk → End
    unfolding daemon_loop fetch_at
    run_daemon interval m alarms disk =
        daemon_loop interval alarms (fetch_at api_url output_dir traefik m disk).1

    -- `main` from the check of the directory on.
    unfoldable pub run_mode : Bool → ℤ → Moment → List Alarm → h.Disk → End
    unfolding run_daemon fetch_at
    run_mode daemon interval m alarms disk =
        let (made, d1) = h.os.mkdir_all (path output_dir) disk in
        elim made [
          | err e ↦ fatal ("failed to create output directory " <> (output_dir <> (": " <> e))) d1
          | ok _ ↦
              if daemon
              then run_daemon interval m alarms d1
              else elim (check_api_health (http m) api_url) [
                | err e ↦
                    fatal ("failed to connect to acme-store API at " <> (api_url <> (": " <> e))) d1
                | ok _ ↦ let (code, d2) = fetch_at api_url output_dir traefik m d1 in ended code d2
              ]
        ]

  -- After the configuration was read.
  unfoldable pub configured : Viper → Flags → Moment → List Alarm → h.Disk → End
  unfolding run_mode text_setting daemon_mode check_interval
  configured v flags m alarms disk =
      let output_dir = text_setting v "fetcher.output_dir" "./certs" flags.output_dir in
      let traefik = text_setting v "fetcher.traefik_config" "" flags.traefik_config in
      let api_url = v.get_string "fetcher.api_url" in
      if api_url == ""
      then fatal "fetcher.api_url is required (e.g., http://127.0.0.1:15872/api)" disk
      else run_mode api_url output_dir traefik (daemon_mode v flags.daemon) (check_interval v) m
          alarms disk

  unfoldable pub main :
      (z : Zap)
      → ConfigHost
      → List StringKey
      → List BoolKey
      → Runtime
      → Flags
      → String
      → Build
      → z.Logger
      → Moment
      → List Alarm
      → h.Disk
      → End
  unfolding configured config_file
  main z host strings bools r flags env build logger m alarms disk =
      if flags.version
      then shown (to_string (get_app_metadata r build))
      else elim (must_init_viper_and_logger z host strings bools "acme-store-fetcher"
          (config_file flags.config env) build logger) [
            | exited e ↦ fatal e disk
            | running (v, c, l, b) ↦ configured v flags m alarms disk
          ]
