-- ===== src/Tests/Backup.antt =====
-- A memory keystore that is exported, and a Vault keystore that its dump is imported into.
use go_acme_store.Common.{
  String, String-discrete, ◌≡◌, refl, false, ◌||◌, List, [], ◌∷◌, ok, contains,
}
use go_acme_store.Common.Dict.{Dict, lookup, insert}
use go_acme_store.Keystore.{Keystore}
use go_acme_store.Keystore.Types.{CertAndKey}
use go_acme_store.Keystore.Laws.{IsReliable}
use go_acme_store.Keystore.Memory
use go_acme_store.Keystore.Memory.{Memory, memory}
use go_acme_store.Keystore.Named.{is_listed}
use go_acme_store.Keystore.Vault
use go_acme_store.Keystore.Vault.{Mount, vault}
use go_acme_store.Keystore.Adoption.{adoption}
use go_acme_store.Keystore.Vault.Laws.{vault-IsLawful}
use go_acme_store.Api.Response.{KeystoreExport, with_keystore}
use go_acme_store.Api.Backup.{
  zero_tally, export_certs, handler_export_keystore, import_certs, import_add, import_domain,
  import_domains, import_all, handler_import_keystore,
}
use go_acme_store.Api.Backup.Import.{Flipped}
use go_acme_store.Api.Backup.Migration.{migrate}
use go_acme_store.Tests.VaultWorld.{host, host-IsSound, Value}
use go_acme_store.Tests.World.{account, cert_named}

abbrev unmanaged : CertAndKey
unmanaged = record (cert_named "a.example") { managed = false }

abbrev here : Memory
here = record {
  account = account;
  cert_and_keys = ("a.example", unmanaged) ∷ [];
  managed_domains = "a.example" ∷ [];
}

abbrev mount : Mount
mount = record { mount_path = "kv"; secret_path = "acme" }

abbrev there : Keystore
there = vault host mount

there-IsReliable : IsReliable there
unfolding Vault.store_cert_and_key
there-IsReliable d c s = refl

abbrev dump : KeystoreExport
dump = record {
  version = "1.0";
  exported_at = "now";
  acme_account = account;
  certificates = ("a.example", unmanaged) ∷ [];
  domains = "a.example" ∷ [];
}

abbrev arrived : Dict Value
arrived =
    (import_domains there dump.certificates dump.domains zero_tally
      (import_certs there dump.certificates zero_tally []).1).1

migrate_example :
    (l : List String) × (there.get_managed_domains arrived ≡ ok l)
    × ((b : String) → contains l b ≡ (contains [] b || contains ("a.example" ∷ []) b))
    × Flipped there ("a.example" ∷ []) "a.example" unmanaged arrived
unfolding Memory.get_acme_account Memory.get_all_domains Memory.get_managed_domains
    Memory.get_cert_and_key Vault.get_base_path Vault.get_domain_path Vault.get_managed_domains_path
    Vault.load_managed_domains Vault.read_data_into_interface Vault.store_cert_and_key
    Vault.get_cert_and_key Vault.get_managed_domains Vault.write_managed_domains Vault.known_domains
    Vault.register Vault.add_managed_domain Vault.add_managed_domain_with_sans
    Vault.is_managed_domain adoption is_listed lookup insert String-discrete with_keystore
    handler_export_keystore export_certs handler_import_keystore import_all import_certs
    import_domains import_domain import_add
migrate_example =
    migrate memory here there (vault-IsLawful host host-IsSound mount tt) there-IsReliable [] "now"
      dump
      (record {
        certificates_imported = 1;
        certificates_failed = 0;
        certificates_total = 1;
        domains_imported = 1;
        domains_failed = 0;
        domains_total = 1;
      })
      arrived ("a.example" ∷ []) ("a.example" ∷ []) [] "a.example" unmanaged refl refl refl refl
      (λ e. cc) refl refl tt (tt, tt) (tt, tt) refl refl
