-- ===== src/Keystore/Memory.antt =====
-- pkg/keystore/memory.go. Each method holds the lock from its first line to its return, so it is
-- one step on the state.
pub mod Laws
pub mod Refinement
pub mod Invariant
use go_acme_store.Common.{
  String, ◌<>◌, Bool, true, false, ◌||◌, Option, none, some, List, [], ◌∷◌, ◌++◌, Result, ok, err,
  Effect, if◌then◌else◌,
}
use go_acme_store.Common.Dict.{Dict, keys, lookup, insert, erase}
use go_acme_store.Keystore.{Keystore}
use go_acme_store.Keystore.Types.{AcmeAccount, CertAndKey, no_cert}
use go_acme_store.Keystore.Named.{itself, is_listed, drop_loop}

pub record Memory : Type 0 where
  pub account : AcmeAccount
  pub cert_and_keys : Dict CertAndKey
  pub managed_domains : List String

unfoldable pub new_memory_keystore : AcmeAccount → Memory
new_memory_keystore account = record { account = account; cert_and_keys = []; managed_domains = [] }

unfoldable pub get_acme_account : Memory → Result AcmeAccount
get_acme_account m = ok m.account

unfoldable pub get_all_domains : Memory → Result (List String)
get_all_domains m = ok (keys m.cert_and_keys)

unfoldable pub get_cert_and_key : String → Memory → Result CertAndKey
get_cert_and_key domain m = elim (lookup domain m.cert_and_keys) [
  | some value ↦ ok value
  | none ↦ ok no_cert
]

unfoldable pub get_leaf_cert : String → Memory → Result String
get_leaf_cert domain m = elim (lookup domain m.cert_and_keys) [
  | some value ↦ ok value.leaf_cert_pem
  | none ↦ ok ""
]

unfoldable pub store_cert_and_key : String → CertAndKey → Effect Memory
store_cert_and_key domain cert m =
    (ok tt, record m { cert_and_keys = insert domain cert m.cert_and_keys })

unfoldable pub delete_cert_and_key : String → Effect Memory
delete_cert_and_key domain m = (ok tt, record m { cert_and_keys = erase domain m.cert_and_keys })

unfoldable pub get_managed_domains : Memory → Result (List String)
get_managed_domains m = ok m.managed_domains

-- `if cert, exists := m.certAndKeys[domain]; exists && !cert.Managed { … }`
unfoldable pub flip_to_managed : String → Dict CertAndKey → Dict CertAndKey
flip_to_managed domain certs = elim (lookup domain certs) [
  | some cert ↦ if cert.managed then certs else insert domain (record cert { managed = true }) certs
  | none ↦ certs
]

unfoldable pub add_managed_domain_with_sans : String → List String → Effect Memory
unfolding flip_to_managed
add_managed_domain_with_sans domain sans m =
    if is_listed itself domain m.managed_domains
    then (err ("domain " <> domain <> " is already managed"), m)
    else (
      ok tt,
      record m {
        managed_domains = m.managed_domains ++ (domain ∷ []);
        cert_and_keys = flip_to_managed domain m.cert_and_keys;
      },
    )

unfoldable pub add_managed_domain : String → Effect Memory
unfolding add_managed_domain_with_sans
add_managed_domain domain = add_managed_domain_with_sans domain []

unfoldable pub remove_managed_domain : String → Effect Memory
remove_managed_domain domain m =
    let (found, kept) = drop_loop itself domain m.managed_domains false [] in
    if found
    then (ok tt, record m { managed_domains = kept })
    else (err ("domain " <> domain <> " is not managed"), m)

unfoldable pub is_managed_domain : String → Memory → Result Bool
is_managed_domain domain m = ok (is_listed itself domain m.managed_domains)

-- `*MemoryKeystore` as a `Keystore`.
abbrev pub memory : Keystore
memory = record {
  State = Memory;
  get_acme_account = get_acme_account;
  get_all_domains = get_all_domains;
  store_cert_and_key = store_cert_and_key;
  get_cert_and_key = get_cert_and_key;
  get_leaf_cert = get_leaf_cert;
  delete_cert_and_key = delete_cert_and_key;
  get_managed_domains = get_managed_domains;
  add_managed_domain = add_managed_domain;
  add_managed_domain_with_sans = add_managed_domain_with_sans;
  remove_managed_domain = remove_managed_domain;
  is_managed_domain = is_managed_domain;
  vault_lookup = none;
}
