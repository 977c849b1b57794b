-- ===== src/Keystore/Vault.antt =====
-- pkg/keystore/vault.go. `Mount` is the struct's two paths; the server is the state.
pub mod Reads
pub mod Additions
pub mod Laws
pub mod Registry
pub mod Open
pub mod Encoding
use go_acme_store.Common.{
  String, ◌<>◌, Bool, true, false, Option, none, some, List, [], ◌∷◌, ◌++◌, map, Result, ok, err,
  wrap, Exec, Effect, return, fail, reads, wrapped, ◌>>=◌, ◌>>◌, ◌==◌, if◌then◌else◌, contains,
}
use go_acme_store.Keystore.{Keystore}
use go_acme_store.Keystore.Types.{AcmeAccount, CertAndKey, no_cert, ManagedDomain, domain_of}
use go_acme_store.Keystore.Named.{is_listed, drop_loop}
use go_acme_store.Keystore.VaultHost.{VaultHost}
use go_acme_store.Keystore.Adoption.{adoption}

-- type VaultKeystore
pub record Mount : Type 0 where
  pub mount_path : String
  pub secret_path : String

unfoldable pub get_base_path : Mount → String
get_base_path m = m.mount_path <> ("/data/" <> m.secret_path)

unfoldable pub get_account_path : Mount → String
get_account_path m = get_base_path m <> "/account"

unfoldable pub get_domain_list_path : Mount → String
get_domain_list_path m = m.mount_path <> ("/metadata/" <> (m.secret_path <> "/domain"))

unfoldable pub get_domain_path : Mount → String → String
get_domain_path m domain = get_base_path m <> ("/domain/" <> domain)

unfoldable pub get_managed_domains_path : Mount → String
get_managed_domains_path m = get_base_path m <> "/managed-domains"

-- The loop of `GetManagedDomainWithSANs`.
unfoldable pub find_domain : String → List ManagedDomain → Result ManagedDomain
find_domain domain [] = err ("domain " <> domain <> " not found")
find_domain domain (d ∷ rest) =
    let more = find_domain domain rest in if d.domain == domain then ok d else more

module _ (h : VaultHost) (m : Mount) where
  -- `readDataIntoInterface` into a variable that holds `zero`.
  unfoldable pub read_data_into_interface :
      {A : Type 0} → (h.Value → Result A) → A → String → h.Server → Result A
  read_data_into_interface decode zero path server = elim (h.read path server) [
    | err e ↦ err e
    | ok none ↦ ok zero
    | ok (some none) ↦ ok zero
    | ok (some (some value)) ↦ decode value
  ]

  unfoldable pub store_account : AcmeAccount → Effect h.Server
  store_account account = do
    value ← reads (λ _. h.accounts.encode (some account))
    h.write (get_account_path m) value

  unfoldable pub get_account : h.Server → Result (Option AcmeAccount)
  get_account = read_data_into_interface h.accounts.decode none (get_account_path m)

  unfoldable pub get_acme_account : h.Server → Result AcmeAccount
  get_acme_account server = elim (get_account server) [
    | err e ↦ err e
    | ok none ↦ ok (record { email = ""; key = "" })
    | ok (some account) ↦ ok account
  ]

  unfoldable pub get_all_domains : h.Server → Result (List String)
  get_all_domains server = elim (h.list_keys (get_domain_list_path m) server) [
    | err e ↦ err e
    | ok none ↦ ok []
    | ok (some none) ↦ ok []
    | ok (some (some ks)) ↦ ok ks
  ]

  unfoldable pub get_cert_and_key : String → h.Server → Result CertAndKey
  get_cert_and_key domain =
      read_data_into_interface h.certs.decode no_cert (get_domain_path m domain)

  unfoldable pub get_leaf_cert : String → h.Server → Result String
  get_leaf_cert domain server = elim (get_cert_and_key domain server) [
    | err e ↦ err e
    | ok cert ↦ ok cert.leaf_cert_pem
  ]

  unfoldable pub store_cert_and_key : String → CertAndKey → Effect h.Server
  store_cert_and_key domain cert = do
    value ← reads (λ _. h.certs.encode cert)
    h.write (get_domain_path m domain) value

  unfoldable pub delete_cert_and_key : String → Effect h.Server
  delete_cert_and_key domain =
      wrapped ("failed to delete cert for domain " <> (domain <> ": "))
        (h.delete (get_domain_path m domain))

  -- The list that the methods on managed domains read.
  unfoldable pub load_managed_domains : h.Server → Result (List ManagedDomain)
  load_managed_domains = read_data_into_interface h.domains.decode [] (get_managed_domains_path m)

  -- The end of the methods that change the list.
  unfoldable pub write_managed_domains : List ManagedDomain → Effect h.Server
  write_managed_domains md = do
    value ← reads (λ _. h.domains.encode md)
    wrapped "failed to store managed domains: " (h.write (get_managed_domains_path m) value)

  unfoldable pub get_managed_domains : h.Server → Result (List String)
  get_managed_domains server = elim (load_managed_domains server) [
    | err e ↦ err e
    | ok md ↦ ok (map domain_of md)
  ]

  unfoldable pub get_managed_domain_with_sans : String → h.Server → Result ManagedDomain
  get_managed_domain_with_sans domain server = elim (load_managed_domains server) [
    | err e ↦ err e
    | ok md ↦ find_domain domain md
  ]

  -- A list that cannot be read counts as empty.
  unfoldable pub known_domains : h.Server → List ManagedDomain
  known_domains server = elim (load_managed_domains server) [ err e ↦ [] | ok md ↦ md ]

  -- `AddManagedDomainWithSANs` up to the write of the list.
  unfoldable pub register : String → List String → Effect h.Server
  register domain sans = do
    md ← reads (λ server. ok (known_domains server))
    if is_listed domain_of domain md
        then fail ("domain " <> domain <> " is already managed")
        else write_managed_domains (md ++ (record { domain = domain; sans = sans } ∷ []))

  -- The error of the last write is logged and dropped.
  unfoldable pub add_managed_domain_with_sans : String → List String → Effect h.Server
  add_managed_domain_with_sans domain sans server =
      let (r, s1) = register domain sans server in
      elim r [
        | err e ↦ (err e, s1)
        | ok _ ↦ elim (adoption domain sans (get_cert_and_key domain s1)) [
          | none ↦ (ok tt, s1)
          | some cert ↦ (ok tt, (store_cert_and_key domain cert s1).1)
        ]
      ]

  unfoldable pub add_managed_domain : String → Effect h.Server
  unfolding add_managed_domain_with_sans
  add_managed_domain domain = add_managed_domain_with_sans domain []

  unfoldable pub remove_managed_domain : String → Effect h.Server
  remove_managed_domain domain = do
    md ← reads load_managed_domains
    let r = drop_loop domain_of domain md false []
    if r.0 then write_managed_domains r.1 else fail ("domain " <> domain <> " is not managed")

  unfoldable pub is_managed_domain : String → h.Server → Result Bool
  is_managed_domain domain server = elim (get_managed_domains server) [
    | err e ↦ err e
    | ok names ↦ ok (is_listed (λ d. d) domain names)
  ]

  -- `*VaultKeystore` as a `Keystore`.
  abbrev pub vault : Keystore
  vault = record {
    State = h.Server;
    get_acme_account = get_acme_account;
    get_all_domains = get_all_domains;
    store_cert_and_key = store_cert_and_key;
    get_cert_and_key = get_cert_and_key;
    get_leaf_cert = get_leaf_cert;
    delete_cert_and_key = delete_cert_and_key;
    get_managed_domains = get_managed_domains;
    add_managed_domain = add_managed_domain;
    add_managed_domain_with_sans = add_managed_domain_with_sans;
    remove_managed_domain = remove_managed_domain;
    is_managed_domain = is_managed_domain;
    vault_lookup = some get_managed_domain_with_sans;
  }
