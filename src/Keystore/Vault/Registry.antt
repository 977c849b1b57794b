-- ===== src/Keystore/Vault/Registry.antt =====
-- The list of managed domains in vault.go: the SANs that are registered with a domain, and what an
-- unreadable list leads to.
use go_acme_store.Common.{String, ◌≡◌, sym, ◌∙◌, false, List, [], ◌∷◌, ◌++◌, ok, err, arith}
use go_acme_store.Keystore.Types.{ManagedDomain, domain_of}
use go_acme_store.Keystore.Named.{is_listed}
use go_acme_store.Keystore.VaultHost.{VaultHost, IsSound}
use go_acme_store.Keystore.Vault.{
  Mount, get_managed_domains_path, find_domain, load_managed_domains, known_domains, register,
  get_managed_domain_with_sans, add_managed_domain_with_sans,
}
use go_acme_store.Keystore.Vault.Reads.{IsPlain, load-write_managed}
use go_acme_store.Keystore.Vault.Additions.{load-register, load-add, result-add}

find_domain-append :
    (d : String) (sans : List String) (md : List ManagedDomain)
    → is_listed domain_of d md ≡ false
    → find_domain d (md ++ (record { domain = d; sans = sans } ∷ []))
      ≡ ok (record { domain = d; sans = sans })
unfolding find_domain is_listed
find_domain-append d sans [] h = ground arith
find_domain-append d sans (x ∷ md) h = ground (arith, find_domain-append d sans md)

module _ (h : VaultHost) (sound : IsSound h) (m : Mount)
    (managed_clean : h.IsClean (get_managed_domains_path m)) (d : String) (sans : List String)
    (s : h.Server) where
  abbrev entry : ManagedDomain
  entry = record { domain = d; sans = sans }

  -- Over a server that keeps its promises, with clean paths, where the list of managed domains
  -- can be read: a domain that was added with success is found with the SANs that it was added
  -- with.
  pub find-add :
      (md : List ManagedDomain)
      → IsPlain h sound m managed_clean d
      → load_managed_domains h m s ≡ ok md
      → (add_managed_domain_with_sans h m d sans s).0 ≡ ok tt
      → get_managed_domain_with_sans h m d (add_managed_domain_with_sans h m d sans s).1 ≡ ok entry
  unfolding get_managed_domain_with_sans
  find-add md hd e r =
      let (fresh, kept) =
        load-register h sound m managed_clean d s sans md e
          (sym (result-add h sound m managed_clean d s sans) ∙ r) in
      ground (arith, load-add h sound m managed_clean d s sans hd, find_domain-append d sans md)

  -- Over a server that keeps its promises, with clean paths: if the list of managed domains
  -- cannot be read when a domain is added, and the call succeeds, then the new domain alone is
  -- managed from then on, whatever the list held.
  pub add_on_unreadable :
      (e : String)
      → IsPlain h sound m managed_clean d
      → load_managed_domains h m s ≡ err e
      → (add_managed_domain_with_sans h m d sans s).0 ≡ ok tt
      → load_managed_domains h m (add_managed_domain_with_sans h m d sans s).1 ≡ ok (entry ∷ [])
  add_on_unreadable e hd unreadable r =
      load-add h sound m managed_clean d s sans hd
      ∙ (unfold register known_domains is_listed in
          ground (
            arith,
            load-write_managed h sound m managed_clean (entry ∷ []) s,
            sym (result-add h sound m managed_clean d s sans) ∙ r,
          ))
