-- ===== src/Tests/Vault.antt =====
-- The Vault back end over the small server.
use go_acme_store.Common.{String-discrete, ◌≡◌, refl, [], ◌∷◌, ok}
use go_acme_store.Common.Dict.{Dict, lookup, insert}
use go_acme_store.Keystore.Laws.{IsLawful}
use go_acme_store.Keystore.Named.{is_listed}
use go_acme_store.Keystore.Vault.{
  Mount, get_base_path, get_domain_path, get_managed_domains_path, read_data_into_interface,
  write_managed_domains, load_managed_domains, get_cert_and_key, store_cert_and_key, known_domains,
  register, add_managed_domain_with_sans, vault,
}
use go_acme_store.Keystore.Adoption.{adoption}
use go_acme_store.Keystore.Vault.Reads.{IsPlain}
use go_acme_store.Keystore.Vault.Laws.{vault-IsLawful}
use go_acme_store.Keystore.Vault.Registry.{add_on_unreadable}
use go_acme_store.Tests.VaultWorld.{host, host-IsSound, Value, cert_value}
use go_acme_store.Tests.World.{cert_named}

abbrev mount : Mount
mount = record { mount_path = "kv"; secret_path = "acme" }

-- A server whose list of managed domains is not a list.
abbrev broken : Dict Value
broken = ("kv/data/acme/managed-domains", cert_value (cert_named "a.example")) ∷ []

vault-IsLawful_example : IsLawful (vault host mount) (IsPlain host host-IsSound mount tt)
vault-IsLawful_example = vault-IsLawful host host-IsSound mount tt

add_on_unreadable_example :
    load_managed_domains host mount
      (add_managed_domain_with_sans host mount "a.example" [] broken).1
    ≡ ok (record { domain = "a.example"; sans = [] } ∷ [])
unfolding get_base_path get_domain_path get_managed_domains_path read_data_into_interface
    write_managed_domains load_managed_domains get_cert_and_key store_cert_and_key known_domains
    register add_managed_domain_with_sans is_listed lookup insert String-discrete adoption
add_on_unreadable_example =
    add_on_unreadable host host-IsSound mount tt "a.example" [] broken "no list of domains" tt refl
      refl
