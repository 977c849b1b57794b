-- ===== src/Keystore/Vault/Additions.antt =====
-- `AddManagedDomainWithSANs` of vault.go: the list and the certificates afterwards.
use go_acme_store.Common.{
  Bool-cases, ap, ◌⊎◌, err, String, ◌≡◌, sym, ◌≢◌, ◌∙◌, false, Option, List, [], ◌∷◌, ◌++◌, map, ok,
  arith, contains, Result-cases, Option-cases, inl, inr,
}
use mathlib.Core.List.{map-append}
use go_acme_store.Keystore.Laws.{IsReliable, as_managed, as_managed_id}
use go_acme_store.Keystore.Types.{CertAndKey, ManagedDomain, domain_of}
use go_acme_store.Keystore.Named.{is_listed, is_listed-contains}
use go_acme_store.Keystore.VaultHost.{VaultHost, IsSound}
use go_acme_store.Keystore.Adoption.{placeholder, adoption, adoption-cases}
use go_acme_store.Keystore.Vault.{
  Mount, get_managed_domains_path, known_domains, get_cert_and_key, load_managed_domains,
  get_managed_domains, register, add_managed_domain_with_sans, vault,
}
use go_acme_store.Keystore.Vault.Reads.{
  IsPlain, get-store, get-store_ne, load-store, load-write_managed, get-write_managed,
}

module _ (h : VaultHost) (sound : IsSound h) (m : Mount)
    (managed_clean : h.IsClean (get_managed_domains_path m)) where
  pub load_of_names :
      (disk : h.Server) (l : List String)
      → get_managed_domains h m disk ≡ ok l
      → (md : List ManagedDomain) × (load_managed_domains h m disk ≡ ok md) × (map domain_of md ≡ l)
  unfolding get_managed_domains
  load_of_names disk l e = elim (Result-cases (load_managed_domains h m disk)) [
    | inl (md, p) ↦ (md, p, ground arith)
    | inr (x, p) ↦ absurd (ground arith)
  ]

  pub names_of_load :
      (disk : h.Server) (md : List ManagedDomain)
      → load_managed_domains h m disk ≡ ok md
      → get_managed_domains h m disk ≡ ok (map domain_of md)
  unfolding get_managed_domains
  names_of_load disk md e = rw (e, get_managed_domains)

  module _ (d : String) (disk : h.Server) where
    module _ (sans : List String) where
      abbrev pub entry : ManagedDomain
      entry = record { domain = d; sans = sans }

      pub load-register :
          (md : List ManagedDomain)
          → load_managed_domains h m disk ≡ ok md
          → (register h m d sans disk).0 ≡ ok tt
          → (is_listed domain_of d md ≡ false)
            × (load_managed_domains h m (register h m d sans disk).1 ≡ ok (md ++ (entry ∷ [])))
      unfolding register known_domains
      load-register md e r =
          ground (arith, load-write_managed h sound m managed_clean (md ++ (entry ∷ [])) disk)

      get-register :
          (a : String)
          → IsPlain h sound m managed_clean a
          → get_cert_and_key h m a (register h m d sans disk).1 ≡ get_cert_and_key h m a disk
      unfolding register
      get-register a ha = ground (
        arith,
        get-write_managed h sound m managed_clean a ha disk
            (known_domains h m disk ++ (entry ∷ [])),
      )

      -- What is stored for the domain at the end.
      abbrev pub adopted : Option CertAndKey
      adopted = adoption d sans (get_cert_and_key h m d (register h m d sans disk).1)

      pub load-add :
          IsPlain h sound m managed_clean d
          → load_managed_domains h m (add_managed_domain_with_sans h m d sans disk).1
            ≡ load_managed_domains h m (register h m d sans disk).1
      unfolding add_managed_domain_with_sans
      load-add hd = elim (Option-cases adopted) [
        | inl p ↦ ground arith
        | inr (c, p) ↦
            ground (arith, load-store h sound m managed_clean d hd (register h m d sans disk).1 c)
      ]

      pub result-add :
          (add_managed_domain_with_sans h m d sans disk).0 ≡ (register h m d sans disk).0
      unfolding add_managed_domain_with_sans
      result-add = ground arith

      pub get-add_ne :
          (a : String)
          → IsPlain h sound m managed_clean a
          → IsPlain h sound m managed_clean d
          → a ≢ d
          → get_cert_and_key h m a (add_managed_domain_with_sans h m d sans disk).1
            ≡ get_cert_and_key h m a disk
      unfolding add_managed_domain_with_sans
      get-add_ne a ha hd ne = elim (Option-cases adopted) [
        | inl p ↦ ground (arith, get-register a ha)
        | inr (c, p) ↦ ground (
          arith,
          get-register a ha,
          get-store_ne h sound m managed_clean a d ha hd ne (register h m d sans disk).1 c,
        )
      ]

      -- What the domain's certificate becomes.
      pub get-add :
          (c : CertAndKey)
          → IsReliable (vault h m)
          → IsPlain h sound m managed_clean d
          → get_cert_and_key h m d disk ≡ ok c
          → c.common_name ≢ ""
          → (add_managed_domain_with_sans h m d sans disk).0 ≡ ok tt
          → get_cert_and_key h m d (add_managed_domain_with_sans h m d sans disk).1
            ≡ ok (as_managed c)
      unfolding add_managed_domain_with_sans adoption
      get-add c reliable hd e named r = elim (Bool-cases c.managed) [
        | inl old ↦ ground (arith, get-register d hd, as_managed_id c old)
        | inr new ↦ ground (
          arith,
          get-register d hd,
          reliable d (as_managed c) (register h m d sans disk).1,
          get-store h sound m managed_clean d (as_managed c) (register h m d sans disk).1,
        )
      ]

      pub get-add_err :
          (e : String)
          → IsPlain h sound m managed_clean d
          → (add_managed_domain_with_sans h m d sans disk).0 ≡ err e
          → get_cert_and_key h m d (add_managed_domain_with_sans h m d sans disk).1
            ≡ get_cert_and_key h m d disk
      unfolding add_managed_domain_with_sans
      get-add_err e hd r = ground (arith, get-register d hd, result-add)

      pub get-add_cases :
          IsReliable (vault h m)
          → IsPlain h sound m managed_clean d
          → (get_cert_and_key h m d (add_managed_domain_with_sans h m d sans disk).1
              ≡ get_cert_and_key h m d disk)
            ⊎ ((c : CertAndKey) × (get_cert_and_key h m d disk ≡ ok c)
                × (get_cert_and_key h m d (add_managed_domain_with_sans h m d sans disk).1
                    ≡ ok (as_managed c)))
            ⊎ (get_cert_and_key h m d (add_managed_domain_with_sans h m d sans disk).1
                ≡ ok (placeholder d sans))
      unfolding add_managed_domain_with_sans
      get-add_cases reliable hd = elim (Result-cases (register h m d sans disk).0) [
        | inr (e, q) ↦ inl (ground (arith, get-register d hd))
        | inl (u, q) ↦ elim (Option-cases adopted) [
          | inl p ↦ inl (ground (arith, get-register d hd))
          | inr (c', p) ↦
              let after : get_cert_and_key h m d (add_managed_domain_with_sans h m d sans disk).1
                  ≡ ok c' =
                ground (
                  arith,
                  get-register d hd,
                  reliable d c' (register h m d sans disk).1,
                  get-store h sound m managed_clean d c' (register h m d sans disk).1,
                ) in
              elim (adoption-cases d sans _ c' p) [
                | inl (c, q, e) ↦ inr (inl (c, sym (get-register d hd) ∙ q, after ∙ ap ok e))
                | inr e ↦ inr (inr (after ∙ ap ok e))
              ]
        ]
      ]

      pub managed-add :
          (l : List String)
          → IsPlain h sound m managed_clean d
          → get_managed_domains h m disk ≡ ok l
          → (add_managed_domain_with_sans h m d sans disk).0 ≡ ok tt
          → (contains l d ≡ false)
            × (get_managed_domains h m (add_managed_domain_with_sans h m d sans disk).1
                ≡ ok (l ++ (d ∷ [])))
      managed-add l hd e r =
          let (md, p, q) = load_of_names disk l e in
          let (fresh, kept) = load-register md p (sym result-add ∙ r) in
          (
            rw (← q, ← is_listed-contains) fresh,
            names_of_load _ _ (load-add hd ∙ kept) ∙ rw (map-append, q),
          )
