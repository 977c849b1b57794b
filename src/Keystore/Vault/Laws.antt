-- ===== src/Keystore/Vault/Laws.antt =====
-- The methods of vault.go, and the interface's contract. A write may fail.
use go_acme_store.Common.{
  refl, String, ◌≡◌, ◌∙◌, true, false, List, [], map, ok, arith, contains, without, Result-cases,
  inl, inr,
}
use go_acme_store.Keystore.Laws.{IsLawful, ok_map}
use go_acme_store.Keystore.Types.{ManagedDomain, domain_of}
use go_acme_store.Keystore.Named.{
  is_listed, drop_loop, is_listed-contains, is_listed-itself, drop_loop-found, drop_loop-kept,
}
use go_acme_store.Keystore.VaultHost.{VaultHost, IsSound}
use go_acme_store.Keystore.Vault.{
  add_managed_domain, Mount, get_managed_domains_path, get_cert_and_key, get_leaf_cert,
  load_managed_domains, get_managed_domains, remove_managed_domain, is_managed_domain, vault,
}
use go_acme_store.Keystore.Vault.Reads.{
  IsPlain, get-store, get-store_ne, get-delete, get-delete_ne, load-store, load-delete,
  load-write_managed, get-write_managed,
}
use go_acme_store.Keystore.Vault.Additions.{
  load_of_names, names_of_load, get-add, get-add_err, get-add_cases, get-add_ne, managed-add,
}

module _ (h : VaultHost) (sound : IsSound h) (m : Mount)
    (managed_clean : h.IsClean (get_managed_domains_path m)) where
  managed_of_load :
      (d d' : h.Server)
      → load_managed_domains h m d ≡ load_managed_domains h m d'
      → get_managed_domains h m d ≡ get_managed_domains h m d'
  unfolding get_managed_domains
  managed_of_load d d' e = rw (e, get_managed_domains)

  is_managed_lem :
      (d : String) (disk : h.Server)
      → is_managed_domain h m d disk ≡ ok_map (λ l. contains l d) (get_managed_domains h m disk)
  unfolding is_managed_domain get_managed_domains
  is_managed_lem d disk = elim (Result-cases (load_managed_domains h m disk)) [
    | inl (md, p) ↦ ground (arith, is_listed-itself d (map domain_of md))
    | inr (x, p) ↦ ground arith
  ]

  module _ (d : String) (disk : h.Server) where
    pub load-remove :
        (md : List ManagedDomain)
        → load_managed_domains h m disk ≡ ok md
        → (remove_managed_domain h m d disk).0 ≡ ok tt
        → (is_listed domain_of d md ≡ true)
          × (load_managed_domains h m (remove_managed_domain h m d disk).1
              ≡ ok (drop_loop domain_of d md false []).1)
    unfolding remove_managed_domain
    load-remove md e r = ground (
      arith,
      drop_loop-found domain_of d md false [],
      load-write_managed h sound m managed_clean (drop_loop domain_of d md false []).1 disk,
    )

    get-remove :
        (a : String)
        → IsPlain h sound m managed_clean a
        → get_cert_and_key h m a (remove_managed_domain h m d disk).1 ≡ get_cert_and_key h m a disk
    unfolding remove_managed_domain
    get-remove a ha = elim (Result-cases (load_managed_domains h m disk)) [
      | inr (x, p) ↦ ground arith
      | inl (md, p) ↦ ground (
        arith,
        get-write_managed h sound m managed_clean a ha disk (drop_loop domain_of d md false []).1,
      )
    ]

    managed-remove :
        (l : List String)
        → get_managed_domains h m disk ≡ ok l
        → (remove_managed_domain h m d disk).0 ≡ ok tt
        → (contains l d ≡ true)
          × (get_managed_domains h m (remove_managed_domain h m d disk).1 ≡ ok (without d l))
    managed-remove l e r =
        let (md, p, q) = load_of_names h sound m managed_clean disk l e in
        let (listed, kept) = load-remove md p r in
        (
          rw (← q, ← is_listed-contains) listed,
          names_of_load h sound m managed_clean _ _ kept ∙ rw (drop_loop-kept, q),
        )

  -- Over a server that keeps its promises, where the path of the list of managed domains is
  -- clean, the Vault back end keeps the contract of the interface for the domain names whose path
  -- is clean.
  pub vault-IsLawful : IsLawful (vault h m) (IsPlain h sound m managed_clean)
  vault-IsLawful = record {
    get-store = get-store h sound m managed_clean;
    get-store_ne = λ a d c s ha hd ne. get-store_ne h sound m managed_clean a d ha hd ne s c;
    managed-store = λ d c s hd. managed_of_load _ _ (load-store h sound m managed_clean d hd s c);
    get-delete = get-delete h sound m managed_clean;
    get-delete_ne = λ a d s ha hd ne. get-delete_ne h sound m managed_clean a d ha hd ne s;
    managed-delete = λ d s hd. managed_of_load _ _ (load-delete h sound m managed_clean d hd s);
    leaf_lem = λ d s. unfold get_leaf_cert in ground arith;
    is_managed_lem = is_managed_lem;
    managed-remove = λ d s l e r. managed-remove d s l e r;
    get-remove = λ a d s ha. get-remove d s a ha;
    managed-add = λ d sans s l hd e r. managed-add h sound m managed_clean d s sans l hd e r;
    get-add_ne = λ a d sans s ha hd ne. get-add_ne h sound m managed_clean d s sans a ha hd ne;
    add_lem = λ d s. unfold add_managed_domain in refl;
    get-add =
        λ d sans c s rel hd e named r. get-add h sound m managed_clean d s sans c rel hd e named r;
    get-add_err = λ d sans e s hd r. get-add_err h sound m managed_clean d s sans e hd r;
    get-add_cases = λ d sans s. get-add_cases h sound m managed_clean d s sans;
  }
