-- ===== src/Keystore/Filesystem.antt =====
-- pkg/keystore/filesystem.go. The fields of the struct are `Layout`; the files are the disk, which
-- every method takes and returns.
pub mod Reads
pub mod Additions
pub mod Laws
pub mod Windows
pub mod Traversal
pub mod Open
use go_acme_store.Common.{
  String, ◌<>◌, Bool, true, false, not, ◌&&◌, Option, none, some, List, [], ◌∷◌, ◌++◌, map, Result,
  ok, err, wrap, Exec, Effect, return, fail, reads, wrapped, ◌>>=◌, ◌>>◌, ◌==◌, if◌then◌else◌,
}
use go_acme_store.Host.Paths.{FilePath, join, cut_json}
use go_acme_store.Host.Files.{IoResult, done, not_exist, failed, Entry, Os}
use go_acme_store.Host.Codec.{Codec}
use go_acme_store.Keystore.{Keystore}
use go_acme_store.Keystore.Types.{AcmeAccount, CertAndKey, no_cert, ManagedDomain, domain_of}
use go_acme_store.Keystore.Named.{is_listed, drop_loop}
use go_acme_store.Keystore.FileHost.{FileHost}
use go_acme_store.Keystore.Adoption.{adoption}

-- type FilesystemKeystore
pub record Layout : Type 0 where
  pub base_path : FilePath
  pub account_file : FilePath
  pub domains_dir : FilePath
  pub managed_file : FilePath

-- The paths that `NewFilesystemKeystoreFromViper` computes.
unfoldable pub layout_of : FilePath → Layout
layout_of base = record {
  base_path = base;
  account_file = join base "account.json";
  domains_dir = join base "domains";
  managed_file = join base "managed-domains.json";
}

unfoldable pub get_domain_file_path : Layout → String → FilePath
get_domain_file_path f domain = join f.domains_dir (domain <> ".json")

-- The loop over the entries of the domains directory.
unfoldable pub listed_domains : List Entry → List String
listed_domains [] = []
listed_domains (entry ∷ entries) =
    let rest = listed_domains entries in
    if entry.is_dir
    then rest
    else elim (cut_json entry.name) [ none ↦ rest | some domain ↦ domain ∷ rest ]

module _ (h : FileHost) (f : Layout) where
  -- `nil, nil` for a file that does not exist
  unfoldable pub load_account : h.Disk → Result (Option AcmeAccount)
  load_account disk = elim (h.os.read_file f.account_file disk) [
    | not_exist ↦ ok none
    | failed e ↦ err ("failed to read account file: " <> e)
    | done text ↦ elim (h.accounts.decode text) [
      | ok account ↦ ok (some account)
      | err e ↦ err ("failed to unmarshal account: " <> e)
    ]
  ]

  unfoldable pub store_account : AcmeAccount → Effect h.Disk
  store_account account = do
    text ← wrapped "failed to marshal account: " (reads (λ _. h.accounts.encode account))
    wrapped "failed to write account file: " (h.os.write_file f.account_file text)

  unfoldable pub get_acme_account : h.Disk → Result AcmeAccount
  get_acme_account disk = elim (load_account disk) [
    | err e ↦ err e
    | ok none ↦ err "no account found"
    | ok (some account) ↦ ok account
  ]

  unfoldable pub get_all_domains : h.Disk → Result (List String)
  get_all_domains disk = elim (h.os.read_dir f.domains_dir disk) [
    | not_exist ↦ ok []
    | failed e ↦ err ("failed to read domains directory: " <> e)
    | done entries ↦ ok (listed_domains entries)
  ]

  unfoldable pub get_cert_and_key : String → h.Disk → Result CertAndKey
  get_cert_and_key domain disk = elim (h.os.read_file (get_domain_file_path f domain) disk) [
    | not_exist ↦ ok no_cert
    | failed e ↦ err ("failed to read certificate file: " <> e)
    | done text ↦ wrap "failed to unmarshal certificate data: " (h.certs.decode text)
  ]

  unfoldable pub get_leaf_cert : String → h.Disk → Result String
  get_leaf_cert domain disk = elim (get_cert_and_key domain disk) [
    | err e ↦ err e
    | ok cert ↦ ok cert.leaf_cert_pem
  ]

  unfoldable pub store_cert_and_key : String → CertAndKey → Effect h.Disk
  store_cert_and_key domain cert = do
    text ← wrapped "failed to marshal certificate data: " (reads (λ _. h.certs.encode cert))
    wrapped "failed to write certificate file: "
        (h.os.write_file (get_domain_file_path f domain) text)

  unfoldable pub delete_cert_and_key : String → Effect h.Disk
  delete_cert_and_key domain disk =
      let (r, disk') = h.os.remove (get_domain_file_path f domain) disk in
      elim r [
        | failed e ↦ (err ("failed to delete certificate file: " <> e), disk')
        | _ ↦ (ok tt, disk')
      ]

  unfoldable pub load_managed_domains : h.Disk → Result (List ManagedDomain)
  load_managed_domains disk = elim (h.os.read_file f.managed_file disk) [
    | not_exist ↦ ok []
    | failed e ↦ err ("failed to read managed domains file: " <> e)
    | done text ↦ wrap "failed to unmarshal managed domains: " (h.domains.decode text)
  ]

  unfoldable pub store_managed_domains : List ManagedDomain → Effect h.Disk
  store_managed_domains md = do
    text ← wrapped "failed to marshal managed domains: " (reads (λ _. h.domains.encode md))
    wrapped "failed to write managed domains file: " (h.os.write_file f.managed_file text)

  unfoldable pub get_managed_domains : h.Disk → Result (List String)
  get_managed_domains disk = elim (load_managed_domains disk) [
    | err e ↦ err e
    | ok md ↦ ok (map domain_of md)
  ]

  -- `AddManagedDomainWithSANs` up to the place where it first unlocks.
  unfoldable pub register : String → List String → Effect h.Disk
  register domain sans = do
    md ← reads load_managed_domains
    if is_listed domain_of domain md
        then fail ("domain " <> domain <> " is already managed")
        else store_managed_domains (md ++ (record { domain = domain; sans = sans } ∷ []))

  -- The whole method. It gives the lock up around its read and around its write of the
  -- certificate: `before_read` and `before_write` are what others do there. The error of the last
  -- write is logged and dropped.
  unfoldable pub add_with_windows :
      (h.Disk → h.Disk) → (h.Disk → h.Disk) → String → List String → Effect h.Disk
  add_with_windows before_read before_write domain sans disk =
      let (r, d1) = register domain sans disk in
      elim r [
        | err e ↦ (err e, d1)
        | ok _ ↦
            let d2 = before_read d1 in
            elim (adoption domain sans (get_cert_and_key domain d2)) [
              | none ↦ (ok tt, d2)
              | some cert ↦ (ok tt, (store_cert_and_key domain cert (before_write d2)).1)
            ]
      ]

  -- Nobody else runs.
  unfoldable pub add_managed_domain_with_sans : String → List String → Effect h.Disk
  unfolding add_with_windows
  add_managed_domain_with_sans = add_with_windows (λ d. d) (λ d. d)

  unfoldable pub add_managed_domain : String → Effect h.Disk
  unfolding add_managed_domain_with_sans
  add_managed_domain domain = add_managed_domain_with_sans domain []

  unfoldable pub remove_managed_domain : String → Effect h.Disk
  remove_managed_domain domain = do
    md ← reads load_managed_domains
    let r = drop_loop domain_of domain md false []
    if r.0 then store_managed_domains r.1 else fail ("domain " <> domain <> " is not managed")

  unfoldable pub is_managed_domain : String → h.Disk → Result Bool
  is_managed_domain domain disk = elim (load_managed_domains disk) [
    | err e ↦ err e
    | ok md ↦ ok (is_listed domain_of domain md)
  ]

  -- `*FilesystemKeystore` as a `Keystore`.
  abbrev pub filesystem : Keystore
  filesystem = record {
    State = h.Disk;
    get_acme_account = get_acme_account;
    get_all_domains = get_all_domains;
    store_cert_and_key = store_cert_and_key;
    get_cert_and_key = get_cert_and_key;
    get_leaf_cert = get_leaf_cert;
    delete_cert_and_key = delete_cert_and_key;
    get_managed_domains = get_managed_domains;
    add_managed_domain = add_managed_domain;
    add_managed_domain_with_sans = add_managed_domain_with_sans;
    remove_managed_domain = remove_managed_domain;
    is_managed_domain = is_managed_domain;
    vault_lookup = none;
  }
