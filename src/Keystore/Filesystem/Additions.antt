-- ===== src/Keystore/Filesystem/Additions.antt =====
-- `AddManagedDomainWithSANs` of filesystem.go: the list and the certificates afterwards.
use go_acme_store.Common.{
  Bool-cases, ap, ◌⊎◌, err, String, ◌≡◌, sym, ◌≢◌, ◌∙◌, false, Option, List, [], ◌∷◌, ◌++◌, map, ok,
  arith, contains, Result-cases, Option-cases, inl, inr,
}
use mathlib.Core.List.{map-append}
use go_acme_store.Host.Paths.{FilePath}
use go_acme_store.Keystore.Laws.{IsReliable, as_managed, as_managed_id}
use go_acme_store.Keystore.Types.{CertAndKey, ManagedDomain, domain_of}
use go_acme_store.Keystore.Named.{is_listed, is_listed-contains}
use go_acme_store.Keystore.FileHost.{FileHost, IsSound}
use go_acme_store.Keystore.Adoption.{placeholder, adoption, adoption-cases}
use go_acme_store.Keystore.Filesystem.{
  Layout, layout_of, get_cert_and_key, load_managed_domains, get_managed_domains, register,
  add_managed_domain_with_sans, filesystem,
}
use go_acme_store.Keystore.Filesystem.Reads.{
  IsPlain, get-store, get-store_ne, load-store, load-store_managed, get-store_managed,
}

module _ (h : FileHost) (sound : IsSound h) (base : FilePath) where
  abbrev f : Layout
  f = layout_of base

  pub load_of_names :
      (disk : h.Disk) (l : List String)
      → get_managed_domains h f disk ≡ ok l
      → (md : List ManagedDomain) × (load_managed_domains h f disk ≡ ok md) × (map domain_of md ≡ l)
  unfolding get_managed_domains
  load_of_names disk l e = elim (Result-cases (load_managed_domains h f disk)) [
    | inl (md, p) ↦ (md, p, ground arith)
    | inr (m, p) ↦ absurd (ground arith)
  ]

  pub names_of_load :
      (disk : h.Disk) (md : List ManagedDomain)
      → load_managed_domains h f disk ≡ ok md
      → get_managed_domains h f disk ≡ ok (map domain_of md)
  unfolding get_managed_domains
  names_of_load disk md e = rw (e, get_managed_domains)

  module _ (d : String) (disk : h.Disk) where
    module _ (sans : List String) where
      abbrev entry : ManagedDomain
      entry = record { domain = d; sans = sans }

      load-register :
          (md : List ManagedDomain)
          → load_managed_domains h f disk ≡ ok md
          → (register h f d sans disk).0 ≡ ok tt
          → (is_listed domain_of d md ≡ false)
            × (load_managed_domains h f (register h f d sans disk).1 ≡ ok (md ++ (entry ∷ [])))
      unfolding register
      load-register md e r =
          ground (arith, load-store_managed h sound base (md ++ (entry ∷ [])) disk)

      get-register :
          (a : String)
          → IsPlain a
          → get_cert_and_key h f a (register h f d sans disk).1 ≡ get_cert_and_key h f a disk
      unfolding register
      get-register a ha = elim (Result-cases (load_managed_domains h f disk)) [
        | inr (m, p) ↦ ground arith
        | inl (md, p) ↦
            ground (arith, get-store_managed h sound base a ha disk (md ++ (entry ∷ [])))
      ]

      -- What is stored for the domain at the end.
      abbrev adopted : Option CertAndKey
      adopted = adoption d sans (get_cert_and_key h f d (register h f d sans disk).1)

      load-add :
          IsPlain d
          → load_managed_domains h f (add_managed_domain_with_sans h f d sans disk).1
            ≡ load_managed_domains h f (register h f d sans disk).1
      unfolding add_managed_domain_with_sans
      load-add hd = elim (Option-cases adopted) [
        | inl p ↦ ground arith
        | inr (c, p) ↦ ground (arith, load-store h sound base d hd (register h f d sans disk).1 c)
      ]

      result-add : (add_managed_domain_with_sans h f d sans disk).0 ≡ (register h f d sans disk).0
      unfolding add_managed_domain_with_sans
      result-add = ground arith

      pub get-add_ne :
          (a : String)
          → IsPlain a
          → IsPlain d
          → a ≢ d
          → get_cert_and_key h f a (add_managed_domain_with_sans h f d sans disk).1
            ≡ get_cert_and_key h f a disk
      unfolding add_managed_domain_with_sans
      get-add_ne a ha hd ne = elim (Option-cases adopted) [
        | inl p ↦ ground (arith, get-register a ha)
        | inr (c, p) ↦ ground (
          arith,
          get-register a ha,
          get-store_ne h sound base a d ha hd ne c (register h f d sans disk).1,
        )
      ]

      -- What the domain's certificate becomes.
      pub get-add :
          (c : CertAndKey)
          → IsReliable (filesystem h f)
          → IsPlain d
          → get_cert_and_key h f d disk ≡ ok c
          → c.common_name ≢ ""
          → (add_managed_domain_with_sans h f d sans disk).0 ≡ ok tt
          → get_cert_and_key h f d (add_managed_domain_with_sans h f d sans disk).1
            ≡ ok (as_managed c)
      unfolding add_managed_domain_with_sans adoption
      get-add c reliable hd e named r = elim (Bool-cases c.managed) [
        | inl old ↦ ground (arith, get-register d hd, as_managed_id c old)
        | inr new ↦ ground (
          arith,
          get-register d hd,
          reliable d (as_managed c) (register h f d sans disk).1,
          get-store h sound base d (as_managed c) (register h f d sans disk).1,
        )
      ]

      pub get-add_err :
          (e : String)
          → IsPlain d
          → (add_managed_domain_with_sans h f d sans disk).0 ≡ err e
          → get_cert_and_key h f d (add_managed_domain_with_sans h f d sans disk).1
            ≡ get_cert_and_key h f d disk
      unfolding add_managed_domain_with_sans
      get-add_err e hd r = ground (arith, get-register d hd, result-add)

      pub get-add_cases :
          IsReliable (filesystem h f)
          → IsPlain d
          → (get_cert_and_key h f d (add_managed_domain_with_sans h f d sans disk).1
              ≡ get_cert_and_key h f d disk)
            ⊎ ((c : CertAndKey) × (get_cert_and_key h f d disk ≡ ok c)
                × (get_cert_and_key h f d (add_managed_domain_with_sans h f d sans disk).1
                    ≡ ok (as_managed c)))
            ⊎ (get_cert_and_key h f d (add_managed_domain_with_sans h f d sans disk).1
                ≡ ok (placeholder d sans))
      unfolding add_managed_domain_with_sans
      get-add_cases reliable hd = elim (Result-cases (register h f d sans disk).0) [
        | inr (e, q) ↦ inl (ground (arith, get-register d hd))
        | inl (u, q) ↦ elim (Option-cases adopted) [
          | inl p ↦ inl (ground (arith, get-register d hd))
          | inr (c', p) ↦
              let after : get_cert_and_key h f d (add_managed_domain_with_sans h f d sans disk).1
                  ≡ ok c' =
                ground (
                  arith,
                  get-register d hd,
                  reliable d c' (register h f d sans disk).1,
                  get-store h sound base d c' (register h f d sans disk).1,
                ) in
              elim (adoption-cases d sans _ c' p) [
                | inl (c, q, e) ↦ inr (inl (c, sym (get-register d hd) ∙ q, after ∙ ap ok e))
                | inr e ↦ inr (inr (after ∙ ap ok e))
              ]
        ]
      ]

      pub managed-add :
          (l : List String)
          → IsPlain d
          → get_managed_domains h f disk ≡ ok l
          → (add_managed_domain_with_sans h f d sans disk).0 ≡ ok tt
          → (contains l d ≡ false)
            × (get_managed_domains h f (add_managed_domain_with_sans h f d sans disk).1
                ≡ ok (l ++ (d ∷ [])))
      managed-add l hd e r =
          let (md, p, q) = load_of_names disk l e in
          let (fresh, kept) = load-register md p (sym result-add ∙ r) in
          (
            rw (← q, ← is_listed-contains) fresh,
            names_of_load _ _ (load-add hd ∙ kept) ∙ rw (map-append, q),
          )
