-- ===== src/Keystore/Select.antt =====
-- pkg/keystore/keystore.go, `NewKeystoreFromViper`: the back end that the configuration names.
use go_acme_store.Common.{
  String, ◌<>◌, Bool, true, false, Result, ok, err, Exec, ◌==◌, ◌&&◌, if◌then◌else◌,
}
use go_acme_store.Host.Viper.{Viper}
use go_acme_store.Keystore.FileHost.{FileHost}
use go_acme_store.Keystore.VaultHost.{VaultHost}
use go_acme_store.Keystore.Filesystem.{Layout}
use go_acme_store.Keystore.Filesystem.Open.{new_filesystem_keystore}
use go_acme_store.Keystore.Vault.{Mount}
use go_acme_store.Keystore.Vault.Open.{client_panics, new_vault_keystore}
use go_acme_store.Keystore.Memory.{Memory, new_memory_keystore}

-- The keystore that was opened.
pub data Opened : Type 0 where
  vault : Mount → Opened
  filesystem : Layout → Opened
  memory : Memory → Opened

-- An empty name stands for vault.
unfoldable pub backend_name : Viper → String
backend_name v =
    let backend = v.get_string "keystore.backend" in if backend == "" then "vault" else backend

module _ (fh : FileHost) (vh : VaultHost) where
  pub record Outside : Type 0 where
    pub disk : fh.Disk
    pub server : vh.Server

  abbrev opened_vault : Result Mount × vh.Server → Outside → Result Opened × Outside
  opened_vault (ok m, server) w = (ok (vault m), record w { server = server })
  opened_vault (err e, server) w = (err e, record w { server = server })

  abbrev opened_files : Result Layout × fh.Disk → Outside → Result Opened × Outside
  opened_files (ok f, disk) w = (ok (filesystem f), record w { disk = disk })
  opened_files (err e, disk) w = (err e, record w { disk = disk })

  abbrev opened_memory : String → Bool → Result String → Result Opened
  opened_memory email false new_key =
      ok (memory (new_memory_keystore (record { email = ""; key = "" })))
  opened_memory email true (ok key) =
      ok (memory (new_memory_keystore (record { email = email; key = key })))
  opened_memory email true (err e) = err ("failed to generate account key: " <> e)

  -- Does it panic instead?
  unfoldable pub opening_panics : Viper → Bool → Bool
  unfolding backend_name client_panics
  opening_panics v needs_account = (backend_name v == "vault") && client_panics vh v needs_account

  unfoldable pub new_keystore_from_viper :
      Viper → String → Bool → Result String → Exec Outside Opened
  unfolding backend_name
  new_keystore_from_viper v email needs_account new_key w =
      let backend = backend_name v in
      if backend == "vault"
      then opened_vault (new_vault_keystore vh v email needs_account new_key w.server) w
      else if backend == "filesystem"
      then opened_files
          (new_filesystem_keystore fh (v.get_string "filesystem.base_path") email needs_account
            new_key w.disk)
          w
      else if backend == "memory"
      then (opened_memory email needs_account new_key, w)
      else (
        err (
            "unsupported keystore backend: "
            <> (backend <> " (supported: vault, filesystem, memory)")),
        w,
      )
