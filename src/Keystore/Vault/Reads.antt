-- ===== src/Keystore/Vault/Reads.antt =====
-- What each read returns after each write of vault.go, and that the paths are told apart.
use go_acme_store.Common.{
  String, ◌<>◌, ◌≡◌, sym, ap, ◌∙◌, ◌≢◌, List, ok, arith, Result-cases, inl, inr,
}
use text.Mathlib.TextLemmas.{
  append_cancel_left, cons-append, tail-eq_of_cons-eq, head-eq_of_cons-eq,
}
use Prim.Native.Char.{code}
use go_acme_store.Keystore.Types.{CertAndKey, no_cert, ManagedDomain}
use go_acme_store.Keystore.VaultHost.{VaultHost, IsSound}
use go_acme_store.Keystore.Vault.{
  Mount, get_base_path, get_domain_path, get_managed_domains_path, read_data_into_interface,
  get_cert_and_key, store_cert_and_key, delete_cert_and_key, load_managed_domains,
  write_managed_domains,
}

pub path_inj : (m : Mount) (a d : String) → get_domain_path m a ≡ get_domain_path m d → a ≡ d
unfolding get_domain_path
path_inj m a d e = append_cancel_left "/domain/" a d (append_cancel_left (get_base_path m) _ _ e)

not_managed : (d : String) → "/domain/" <> d ≢ "/managed-domains"
not_managed d e =
    let t : "domain/" <> d ≡ "managed-domains" =
      tail-eq_of_cons-eq (sym (cons-append "/" "domain/" d) ∙ e) in
    let initial : code "d" ≡ code "m" =
      ap code (head-eq_of_cons-eq (sym (cons-append "d" "omain/" d) ∙ t)) in
    omega (arith, initial)

pub path-ne-managed : (m : Mount) (d : String) → get_domain_path m d ≢ get_managed_domains_path m
unfolding get_domain_path get_managed_domains_path
path-ne-managed m d e = not_managed d (append_cancel_left (get_base_path m) _ _ e)

module _ (h : VaultHost) (sound : IsSound h) (m : Mount)
    (managed_clean : h.IsClean (get_managed_domains_path m)) where
  -- A domain whose path the server takes as it is.
  abbrev pub IsPlain : String → Type 0
  IsPlain d = h.IsClean (get_domain_path m d)

  pub get-store :
      (d : String) (c : CertAndKey) (s : h.Server)
      → (store_cert_and_key h m d c s).0 ≡ ok tt
      → get_cert_and_key h m d (store_cert_and_key h m d c s).1 ≡ ok c
  unfolding get_cert_and_key store_cert_and_key read_data_into_interface
  get-store d c s e = elim (Result-cases (h.certs.encode c)) [
    | inr (x, p) ↦ ground arith
    | inl (v, p) ↦
        ground (arith, sound.read-write (get_domain_path m d) v s, sound.certs.decode-encode c v)
  ]

  pub get-delete :
      (d : String) (s : h.Server)
      → (delete_cert_and_key h m d s).0 ≡ ok tt
      → get_cert_and_key h m d (delete_cert_and_key h m d s).1 ≡ ok no_cert
  unfolding get_cert_and_key delete_cert_and_key read_data_into_interface
  get-delete d s e = elim (sound.read-delete (get_domain_path m d) s (ground arith)) [
    | inl p ↦ ground arith
    | inr (inl p) ↦ ground arith
    | inr (inr (v, p, null)) ↦ ground (arith, sound.decode-null v null)
  ]

  pub load-write_managed :
      (md : List ManagedDomain) (s : h.Server)
      → (write_managed_domains h m md s).0 ≡ ok tt
      → load_managed_domains h m (write_managed_domains h m md s).1 ≡ ok md
  unfolding load_managed_domains write_managed_domains read_data_into_interface
  load-write_managed md s e = elim (Result-cases (h.domains.encode md)) [
    | inr (x, p) ↦ ground arith
    | inl (v, p) ↦
        ground (
          arith,
          sound.read-write (get_managed_domains_path m) v s,
          sound.domains.decode-encode md v,
        )
  ]

  module _ (a d : String) (ha : IsPlain a) (hd : IsPlain d) (ne : a ≢ d) (s : h.Server) where
    pub get-store_ne :
        (c : CertAndKey)
        → get_cert_and_key h m a (store_cert_and_key h m d c s).1 ≡ get_cert_and_key h m a s
    unfolding get_cert_and_key store_cert_and_key read_data_into_interface
    get-store_ne c = elim (Result-cases (h.certs.encode c)) [
      | inr (x, p) ↦ ground arith
      | inl (v, p) ↦ ground (
        arith,
        sound.read-write_ne (get_domain_path m a) (get_domain_path m d) v s ha hd
            (λ e. ne (path_inj m a d e)),
      )
    ]

    pub get-delete_ne :
        get_cert_and_key h m a (delete_cert_and_key h m d s).1 ≡ get_cert_and_key h m a s
    unfolding get_cert_and_key delete_cert_and_key read_data_into_interface
    get-delete_ne = ground (
      arith,
      sound.read-delete_ne (get_domain_path m a) (get_domain_path m d) s ha hd
          (λ e. ne (path_inj m a d e)),
    )

  module _ (d : String) (hd : IsPlain d) (s : h.Server) where
    pub load-store :
        (c : CertAndKey)
        → load_managed_domains h m (store_cert_and_key h m d c s).1 ≡ load_managed_domains h m s
    unfolding load_managed_domains store_cert_and_key read_data_into_interface
    load-store c = elim (Result-cases (h.certs.encode c)) [
      | inr (x, p) ↦ ground arith
      | inl (v, p) ↦ ground (
        arith,
        sound.read-write_ne (get_managed_domains_path m) (get_domain_path m d) v s managed_clean hd
            (λ e. path-ne-managed m d (sym e)),
      )
    ]

    pub load-delete :
        load_managed_domains h m (delete_cert_and_key h m d s).1 ≡ load_managed_domains h m s
    unfolding load_managed_domains delete_cert_and_key read_data_into_interface
    load-delete = ground (
      arith,
      sound.read-delete_ne (get_managed_domains_path m) (get_domain_path m d) s managed_clean hd
          (λ e. path-ne-managed m d (sym e)),
    )

    pub get-write_managed :
        (md : List ManagedDomain)
        → get_cert_and_key h m d (write_managed_domains h m md s).1 ≡ get_cert_and_key h m d s
    unfolding get_cert_and_key write_managed_domains read_data_into_interface
    get-write_managed md = elim (Result-cases (h.domains.encode md)) [
      | inr (x, p) ↦ ground arith
      | inl (v, p) ↦ ground (
        arith,
        sound.read-write_ne (get_domain_path m d) (get_managed_domains_path m) v s hd managed_clean
            (path-ne-managed m d),
      )
    ]
