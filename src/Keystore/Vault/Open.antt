-- ===== src/Keystore/Vault/Open.antt =====
-- `NewVaultKeystoreFromViper`. The client's address, token and TLS settings belong to the server
-- that is talked to. `new_vault_keystore` is what happens with a client that is not nil.
use go_acme_store.Common.{
  String, Bool, not, ◌&&◌, ◌||◌, ◌==◌, none, some, Result, Exec, Effect, return, reads, ◌>>=◌, ◌>>◌,
  if◌then◌else◌,
}
use go_acme_store.Host.Viper.{Viper}
use go_acme_store.Keystore.VaultHost.{VaultHost}
use go_acme_store.Keystore.Vault.{Mount, get_account, store_account}

module _ (h : VaultHost) where
  -- Does it panic? The error of `vault.NewClient` is dropped: the token is then set on a nil client,
  -- or the account is read with it.
  unfoldable pub client_panics : Viper → Bool → Bool
  client_panics v needs_account =
      not (h.makes_client (v.get_string "vault.address"))
      && (not (v.get_string "vault.token" == "") || needs_account)

  -- The part under `if needsAcmeAccount`. `new_key` is what `GenerateECKeyPEM` returns.
  unfoldable pub ensure_account : Mount → String → Result String → Effect h.Server
  ensure_account m email new_key = do
    stored ← reads (get_account h m)
    elim stored [
      | some account ↦ return tt
      | none ↦ do
        key ← reads (λ _. new_key)
        store_account h m (record { email = email; key = key })
    ]

  unfoldable pub new_vault_keystore : Viper → String → Bool → Result String → Exec h.Server Mount
  unfolding ensure_account
  new_vault_keystore v email needs_account new_key = do
    let m : Mount = record {
      mount_path = v.get_string "vault.kv2_mount";
      secret_path = v.get_string "vault.kv2_secret_path";
    }
    if needs_account then ensure_account m email new_key else return tt
    return m
