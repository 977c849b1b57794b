-- ===== src/Keystore/Filesystem/Laws.antt =====
-- The methods of filesystem.go, and the interface's contract. A write may fail.
use go_acme_store.Common.{
  refl, String, ◌≡◌, ◌∙◌, true, false, List, [], ok, arith, contains, without, Result-cases, inl,
  inr,
}
use go_acme_store.Host.Paths.{FilePath}
use go_acme_store.Keystore.Laws.{IsLawful, ok_map}
use go_acme_store.Keystore.Types.{ManagedDomain, domain_of}
use go_acme_store.Keystore.Named.{
  is_listed, drop_loop, is_listed-contains, drop_loop-found, drop_loop-kept,
}
use go_acme_store.Keystore.FileHost.{FileHost, IsSound}
use go_acme_store.Keystore.Filesystem.{
  add_managed_domain, Layout, layout_of, get_cert_and_key, get_leaf_cert, load_managed_domains,
  get_managed_domains, remove_managed_domain, is_managed_domain, filesystem,
}
use go_acme_store.Keystore.Filesystem.Reads.{
  IsPlain, get-store, get-store_ne, get-delete, get-delete_ne, load-store, load-delete,
  load-store_managed, get-store_managed,
}
use go_acme_store.Keystore.Filesystem.Additions.{
  load_of_names, names_of_load, get-add, get-add_err, get-add_cases, get-add_ne, managed-add,
}

module _ (h : FileHost) (sound : IsSound h) (base : FilePath) where
  abbrev f : Layout
  f = layout_of base

  managed_of_load :
      (d d' : h.Disk)
      → load_managed_domains h f d ≡ load_managed_domains h f d'
      → get_managed_domains h f d ≡ get_managed_domains h f d'
  unfolding get_managed_domains
  managed_of_load d d' e = rw (e, get_managed_domains)

  is_managed_lem :
      (d : String) (disk : h.Disk)
      → is_managed_domain h f d disk ≡ ok_map (λ l. contains l d) (get_managed_domains h f disk)
  unfolding is_managed_domain get_managed_domains
  is_managed_lem d disk = elim (Result-cases (load_managed_domains h f disk)) [
    | inl (md, p) ↦ ground (arith, is_listed-contains domain_of d md)
    | inr (m, p) ↦ ground arith
  ]

  module _ (d : String) (disk : h.Disk) where
    pub load-remove :
        (md : List ManagedDomain)
        → load_managed_domains h f disk ≡ ok md
        → (remove_managed_domain h f d disk).0 ≡ ok tt
        → (is_listed domain_of d md ≡ true)
          × (load_managed_domains h f (remove_managed_domain h f d disk).1
              ≡ ok (drop_loop domain_of d md false []).1)
    unfolding remove_managed_domain
    load-remove md e r = ground (
      arith,
      drop_loop-found domain_of d md false [],
      load-store_managed h sound base (drop_loop domain_of d md false []).1 disk,
    )

    get-remove :
        (a : String)
        → IsPlain a
        → get_cert_and_key h f a (remove_managed_domain h f d disk).1 ≡ get_cert_and_key h f a disk
    unfolding remove_managed_domain
    get-remove a ha = elim (Result-cases (load_managed_domains h f disk)) [
      | inr (m, p) ↦ ground arith
      | inl (md, p) ↦
          ground
            (arith, get-store_managed h sound base a ha disk (drop_loop domain_of d md false []).1)
    ]

    managed-remove :
        (l : List String)
        → get_managed_domains h f disk ≡ ok l
        → (remove_managed_domain h f d disk).0 ≡ ok tt
        → (contains l d ≡ true)
          × (get_managed_domains h f (remove_managed_domain h f d disk).1 ≡ ok (without d l))
    managed-remove l e r =
        let (md, p, q) = load_of_names h sound base disk l e in
        let (listed, kept) = load-remove md p r in
        (
          rw (← q, ← is_listed-contains) listed,
          names_of_load h sound base _ _ kept ∙ rw (drop_loop-kept, q),
        )

  -- Over a host that keeps its promises, the filesystem back end keeps the contract of the
  -- interface for the domain names that are one path element with their .json.
  pub filesystem-IsLawful : IsLawful (filesystem h f) IsPlain
  filesystem-IsLawful = record {
    get-store = get-store h sound base;
    get-store_ne = λ a d c s ha hd ne. get-store_ne h sound base a d ha hd ne c s;
    managed-store = λ d c s hd. managed_of_load _ _ (load-store h sound base d hd s c);
    get-delete = get-delete h sound base;
    get-delete_ne = λ a d s ha hd ne. get-delete_ne h sound base a d ha hd ne s;
    managed-delete = λ d s hd. managed_of_load _ _ (load-delete h sound base d hd s);
    leaf_lem = λ d s. unfold get_leaf_cert in ground arith;
    is_managed_lem = is_managed_lem;
    managed-remove = λ d s l e r. managed-remove d s l e r;
    get-remove = λ a d s ha. get-remove d s a ha;
    managed-add = λ d sans s l hd e r. managed-add h sound base d s sans l hd e r;
    get-add_ne = λ a d sans s ha hd ne. get-add_ne h sound base d s sans a ha hd ne;
    add_lem = λ d s. unfold add_managed_domain in refl;
    get-add = λ d sans c s rel hd e named r. get-add h sound base d s sans c rel hd e named r;
    get-add_err = λ d sans e s hd r. get-add_err h sound base d s sans e hd r;
    get-add_cases = λ d sans s. get-add_cases h sound base d s sans;
  }
