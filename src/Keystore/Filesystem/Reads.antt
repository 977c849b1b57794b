-- ===== src/Keystore/Filesystem/Reads.antt =====
-- What each read returns after each write of filesystem.go. The domain names are those that are one
-- path element with their `.json`.
use go_acme_store.Common.{
  String, ◌<>◌, ◌≡◌, refl, sym, ◌≢◌, ◌∙◌, List, ok, arith, Result-cases, inl, inr,
}
use text.Mathlib.TextLemmas.{append_cancel_right}
use go_acme_store.Host.Paths.{
  FilePath, IsName, IsName-check, split_path, join_name, append_last, append_two_ne_one,
}
use go_acme_store.Host.Files.{IoResult-cases}
use go_acme_store.Keystore.Types.{CertAndKey, no_cert, ManagedDomain}
use go_acme_store.Keystore.FileHost.{FileHost, IsSound}
use go_acme_store.Keystore.Filesystem.{
  Layout, layout_of, get_domain_file_path, get_cert_and_key, store_cert_and_key,
  delete_cert_and_key, load_managed_domains, store_managed_domains,
}

-- A domain whose file is named in the domains directory itself.
abbrev pub IsPlain : String → Type 0
IsPlain domain = IsName (domain <> ".json")

pub domains-IsName : IsName "domains"
unfolding split_path
domains-IsName = IsName-check "domains" refl refl

pub managed-IsName : IsName "managed-domains.json"
unfolding split_path
managed-IsName = IsName-check "managed-domains.json" refl refl

pub account-IsName : IsName "account.json"
unfolding split_path
account-IsName = IsName-check "account.json" refl refl

module _ (base : FilePath) where
  pub path_inj :
      (a d : String)
      → IsPlain a
      → IsPlain d
      → get_domain_file_path (layout_of base) a ≡ get_domain_file_path (layout_of base) d
      → a ≡ d
  unfolding get_domain_file_path
  path_inj a d ha hd e =
      append_cancel_right a d ".json"
        (append_last _ _ _ _ (sym (join_name _ _ ha) ∙ e ∙ join_name _ _ hd))

  pub path-ne-managed :
      (d : String)
      → IsPlain d
      → get_domain_file_path (layout_of base) d ≢ (layout_of base).managed_file
  unfolding get_domain_file_path layout_of
  path-ne-managed d hd e = append_two_ne_one base "domains" (d <> ".json") "managed-domains.json" (
      rw
        (
          ← join_name base "domains" domains-IsName,
          ← join_name _ _ hd,
          ← join_name base _ managed-IsName,
        )
        e)

module _ (h : FileHost) (sound : IsSound h) (base : FilePath) where
  abbrev f : Layout
  f = layout_of base

  open sound use {files}

  pub get-store :
      (d : String) (c : CertAndKey) (disk : h.Disk)
      → (store_cert_and_key h f d c disk).0 ≡ ok tt
      → get_cert_and_key h f d (store_cert_and_key h f d c disk).1 ≡ ok c
  unfolding get_cert_and_key store_cert_and_key
  get-store d c disk e = elim (Result-cases (h.certs.encode c)) [
    | inr (m, p) ↦ ground arith
    | inl (text, p) ↦ ground (
      arith,
      files.read-write (get_domain_file_path f d) text disk,
      sound.certs.decode-encode c text,
    )
  ]

  -- A store writes one file.
  pub read-store :
      (q : FilePath) (d : String) (c : CertAndKey) (disk : h.Disk)
      → q ≢ get_domain_file_path f d
      → h.os.read_file q (store_cert_and_key h f d c disk).1 ≡ h.os.read_file q disk
  unfolding store_cert_and_key
  read-store q d c disk ne = elim (Result-cases (h.certs.encode c)) [
    | inr (m, p) ↦ ground arith
    | inl (text, p) ↦ ground (arith, files.read-write_ne q (get_domain_file_path f d) text disk ne)
  ]

  pub read-delete :
      (q : FilePath) (d : String) (disk : h.Disk)
      → q ≢ get_domain_file_path f d
      → h.os.read_file q (delete_cert_and_key h f d disk).1 ≡ h.os.read_file q disk
  unfolding delete_cert_and_key
  read-delete q d disk ne =
      ground (arith, files.read-remove_ne q (get_domain_file_path f d) disk ne)

  pub get-delete :
      (d : String) (disk : h.Disk)
      → (delete_cert_and_key h f d disk).0 ≡ ok tt
      → get_cert_and_key h f d (delete_cert_and_key h f d disk).1 ≡ ok no_cert
  unfolding get_cert_and_key delete_cert_and_key
  get-delete d disk e = elim (IoResult-cases (h.os.remove (get_domain_file_path f d) disk).0) [
    | inl fine ↦ ground (arith, files.read-remove (get_domain_file_path f d) disk fine)
    | inr (m, p) ↦ ground arith
  ]

  pub read-store_managed :
      (q : FilePath) (md : List ManagedDomain) (disk : h.Disk)
      → q ≢ f.managed_file
      → h.os.read_file q (store_managed_domains h f md disk).1 ≡ h.os.read_file q disk
  unfolding store_managed_domains
  read-store_managed q md disk ne = elim (Result-cases (h.domains.encode md)) [
    | inr (m, p) ↦ ground arith
    | inl (text, p) ↦ ground (arith, files.read-write_ne q f.managed_file text disk ne)
  ]

  pub load-store_managed :
      (md : List ManagedDomain) (disk : h.Disk)
      → (store_managed_domains h f md disk).0 ≡ ok tt
      → load_managed_domains h f (store_managed_domains h f md disk).1 ≡ ok md
  unfolding store_managed_domains load_managed_domains
  load-store_managed md disk e = elim (Result-cases (h.domains.encode md)) [
    | inr (m, p) ↦ ground arith
    | inl (text, p) ↦
        ground
          (arith, files.read-write f.managed_file text disk, sound.domains.decode-encode md text)
  ]

  -- What is read at one path decides each of these.
  pub get_of_read :
      (a : String) (d d' : h.Disk)
      → h.os.read_file (get_domain_file_path f a) d ≡ h.os.read_file (get_domain_file_path f a) d'
      → get_cert_and_key h f a d ≡ get_cert_and_key h f a d'
  unfolding get_cert_and_key
  get_of_read a d d' e = rw (e, get_cert_and_key)

  pub load_of_read :
      (d d' : h.Disk)
      → h.os.read_file f.managed_file d ≡ h.os.read_file f.managed_file d'
      → load_managed_domains h f d ≡ load_managed_domains h f d'
  unfolding load_managed_domains
  load_of_read d d' e = rw (e, load_managed_domains)

  -- The frame of each write, for the certificates and for the list.
  module _ (a d : String) (ha : IsPlain a) (hd : IsPlain d) (ne : a ≢ d) where
    pub get-store_ne :
        (c : CertAndKey) (disk : h.Disk)
        → get_cert_and_key h f a (store_cert_and_key h f d c disk).1 ≡ get_cert_and_key h f a disk
    get-store_ne c disk =
        get_of_read a _ _ (read-store _ d c disk (λ e. ne (path_inj base a d ha hd e)))

    pub get-delete_ne :
        (disk : h.Disk)
        → get_cert_and_key h f a (delete_cert_and_key h f d disk).1 ≡ get_cert_and_key h f a disk
    get-delete_ne disk =
        get_of_read a _ _ (read-delete _ d disk (λ e. ne (path_inj base a d ha hd e)))

  module _ (d : String) (hd : IsPlain d) (disk : h.Disk) where
    pub load-store :
        (c : CertAndKey)
        → load_managed_domains h f (store_cert_and_key h f d c disk).1
          ≡ load_managed_domains h f disk
    load-store c = load_of_read _ _ (read-store _ d c disk (λ e. path-ne-managed base d hd (sym e)))

    pub load-delete :
        load_managed_domains h f (delete_cert_and_key h f d disk).1 ≡ load_managed_domains h f disk
    load-delete = load_of_read _ _ (read-delete _ d disk (λ e. path-ne-managed base d hd (sym e)))

    pub get-store_managed :
        (md : List ManagedDomain)
        → get_cert_and_key h f d (store_managed_domains h f md disk).1 ≡ get_cert_and_key h f d disk
    get-store_managed md =
        get_of_read d _ _ (read-store_managed _ md disk (path-ne-managed base d hd))
