-- ===== src/Startup/Serving.antt =====
-- When `main` gets to its servers.
use go_acme_store.Common.{
  String, ◌≡◌, ◌≢◌, ◌⊎◌, ◌↔◌, refl, true, false, String-discrete, List, Result, arith, inl, inr,
  Bool-cases,
}
use go_acme_store.Host.Viper.{Viper}
use go_acme_store.Keystore.FileHost.{FileHost}
use go_acme_store.Keystore.VaultHost.{VaultHost}
use go_acme_store.Keystore.Select.{Outside, backend_name, opening_panics}
use go_acme_store.Keystore.Vault.Open.{client_panics}
use go_acme_store.Log.{LoggerConfig, get_default_logger_config, Zap, Run, running, exited}
use go_acme_store.Log.Laws.{Builds}
use go_acme_store.Config.{
  ConfigHost, viper_setup, load_failed, StringKey, BoolKey, must_init_viper_and_logger, named,
}
use go_acme_store.Meta.{Build, Runtime}
use go_acme_store.Config.Laws.{starts, start_fails, Loaded-cases}
use go_acme_store.Startup.{
  Flags, Setting, defaults, config_file, check_config, Started, serving, launch, serve, main,
}
use go_acme_store.Startup.Checks.{BackendIsSet, memory, filesystem, vault, check_config_iff}

Run-cases : (r : Run (Unit {0})) → (r ≡ running tt) ⊎ ((m : String) × (r ≡ exited m))
Run-cases (running tt) = inl refl
Run-cases (exited m) = inr (m, refl)

module _ (z : Zap) (fh : FileHost) (vh : VaultHost) where
  module _ (new_key : Result String) (w : Outside fh vh) where
    serves :
        (v : Viper) (c : LoggerConfig) (l : z.Logger) (b : Build)
        → check_config v ≡ running tt
        → opening_panics fh vh v true ≡ false
        → serve z fh vh new_key w (v, c, l, b) ≡ serving (launch z fh vh new_key w (v, c, l, b))
    unfolding serve
    serves v c l b h calm = ground arith

    serves_only :
        (v : Viper) (c : LoggerConfig) (l : z.Logger) (b : Build) (s : Started z fh vh)
        → serve z fh vh new_key w (v, c, l, b) ≡ serving s
        → (check_config v ≡ running tt) × (opening_panics fh vh v true ≡ false)
    unfolding serve
    serves_only v c l b s h = elim (Run-cases (check_config v)) [
      | inl p ↦ elim (Bool-cases (opening_panics fh vh v true)) [
        | inl q ↦ absurd (ground arith)
        | inr q ↦ (p, q)
      ]
      | inr (m, p) ↦ absurd (ground arith)
    ]

  -- It keeps from a panic that the Vault client accepts its address.
  opening_panics_iff :
      (v : Viper)
      → v.get_string "keystore.backend" ≢ ""
      → (opening_panics fh vh v true ≡ false) ↔ (
          v.get_string "keystore.backend" ≡ "vault"
          → vh.makes_client (v.get_string "vault.address") ≡ true)
  unfolding opening_panics client_panics backend_name
  opening_panics_iff v named = (
    λ h e. elim (Bool-cases (vh.makes_client (v.get_string "vault.address"))) [
      | inl made ↦ made
      | inr not_made ↦ absurd (ground arith)
    ],
    λ h. elim (String-discrete (v.get_string "keystore.backend") "vault") [
      | yes e ↦ ground (arith, h e)
      | no ne ↦ ground arith
    ],
  )

  BackendIsSet-named : (v : Viper) → BackendIsSet v → v.get_string "keystore.backend" ≢ ""
  BackendIsSet-named v (memory e) p = cc
  BackendIsSet-named v (filesystem e _) p = cc
  BackendIsSet-named v (vault e _ _ _) p = cc

  module _ (standard : z.Logger) (accepted : Builds z get_default_logger_config standard) where
    -- Where zap accepts the default configuration, acme-store starts its daemon and its HTTP
    -- server exactly when it is not asked for its version, its configuration does not fail to
    -- load, a DNS provider is named, the back end is one of the three with what it needs set,
    -- and, where that is Vault, the Vault client accepts its address. A keystore that cannot be
    -- opened does not stop it.
    pub main_serves_iff :
        (host : List (String × Setting) → ConfigHost) (strings : List StringKey)
        (bools : List BoolKey) (r : Runtime) (flags : Flags) (env : String) (build : Build)
        (logger : z.Logger) (new_key : Result String) (w : Outside fh vh)
        → let h = host defaults in
          let setup = viper_setup h "acme-store" (config_file flags.config env) in
          let v = h.configured setup in
          ((s : Started z fh vh) × (main z fh vh host strings bools r flags env build logger new_key
                w
              ≡ serving s))
          ↔ ((flags.version ≡ false)
              × ((e : String) → h.read_in_config setup ≢ load_failed e)
              × BackendIsSet v
              × (v.get_string "acme.dns_provider" ≢ "")
              × (v.get_string "keystore.backend" ≡ "vault"
                  → vh.makes_client (v.get_string "vault.address") ≡ true))
    unfolding main
    main_serves_iff host strings bools r flags env build logger new_key w =
        let h = host defaults in
        let file = config_file flags.config env in
        let setup = viper_setup h "acme-store" file in
        let v = h.configured setup in
        let run = must_init_viper_and_logger z h strings bools "acme-store" file build logger in
        let read = starts z standard accepted h strings bools "acme-store" file build logger in
        let unread =
          start_fails z standard accepted h strings bools "acme-store" file build logger in
        (
          λ (s, p). elim (Bool-cases flags.version) [
            | inl asked ↦ absurd (ground arith)
            | inr not_asked ↦ elim (Loaded-cases (h.read_in_config setup)) [
              | inl (m, failed) ↦ absurd (ground (arith, unread m failed))
              | inr fine ↦
                  let (used, built, e) = read fine in
                  let (checked, calm) =
                    serves_only new_key w v used built (named "acme-store" build) s
                      (ground (arith, e)) in
                  let (set, dns) = (check_config_iff v).0 checked in
                  (
                    not_asked,
                    fine,
                    set,
                    dns,
                    (opening_panics_iff v (BackendIsSet-named v set)).0 calm,
                  )
            ]
          ],
          λ (not_asked, fine, set, dns, client).
              let (used, built, e) = read fine in
              let b = named "acme-store" build in
              (
                launch z fh vh new_key w (v, used, built, b),
                ground (
                  arith,
                  e,
                  serves new_key w v used built b ((check_config_iff v).1 (set, dns))
                      ((opening_panics_iff v (BackendIsSet-named v set)).1 client),
                ),
              ),
        )
