-- ===== src/Keystore/Memory/Laws.antt =====
-- The methods of memory.go, and the interface's contract.
use go_acme_store.Common.{
  String, Bool-cases, ◌⊎◌, Option-cases, inl, inr, if◌then◌else◌, ◌≡◌, refl, ◌≢◌, true, false, List,
  [], ◌∷◌, ◌++◌, ◌<>◌, ok, err, arith, ◌==◌, ==_self, contains, without,
}
use mathlib.Core.Option
use go_acme_store.Common.Dict.{Dict, lookup, lookup-insert, lookup-erase}
use go_acme_store.Keystore.Types.{CertAndKey, no_cert}
use go_acme_store.Keystore.Adoption.{placeholder}
use go_acme_store.Keystore.Laws.{IsLawful, as_managed, as_managed_id}
use go_acme_store.Keystore.Named.{is_listed-itself, kept-itself, found-itself}
use go_acme_store.Keystore.Memory.{
  flip_to_managed, Memory, get_cert_and_key, get_leaf_cert, store_cert_and_key, delete_cert_and_key,
  add_managed_domain, get_managed_domains, add_managed_domain_with_sans, remove_managed_domain,
  is_managed_domain, memory,
}

pub lookup-flip :
    (a d : String) (certs : Dict CertAndKey)
    → lookup a (flip_to_managed d certs)
      ≡ (if a == d then Option.map as_managed (lookup a certs) else lookup a certs)
unfolding flip_to_managed
lookup-flip a d certs = elim (Option-cases (lookup d certs)) [
  | inl e ↦ ground arith
  | inr (c, e) ↦ ground (arith, as_managed_id c, lookup-insert a d (as_managed c) certs)
]

module _ (a d : String) (m : Memory) where
  pub get-store_if :
      (c : CertAndKey)
      → get_cert_and_key a (store_cert_and_key d c m).1
        ≡ (if a == d then ok c else get_cert_and_key a m)
  unfolding get_cert_and_key store_cert_and_key
  get-store_if c = ground (arith, lookup-insert a d c m.cert_and_keys)

  pub get-delete_if :
      get_cert_and_key a (delete_cert_and_key d m).1
      ≡ (if a == d then ok no_cert else get_cert_and_key a m)
  unfolding get_cert_and_key delete_cert_and_key
  get-delete_if = ground (arith, lookup-erase a d m.cert_and_keys)

  pub get-remove_lem : get_cert_and_key a (remove_managed_domain d m).1 ≡ get_cert_and_key a m
  unfolding get_cert_and_key remove_managed_domain
  get-remove_lem = ground arith

  pub get-add_ne :
      (sans : List String)
      → a ≢ d
      → get_cert_and_key a (add_managed_domain_with_sans d sans m).1 ≡ get_cert_and_key a m
  unfolding get_cert_and_key add_managed_domain_with_sans
  get-add_ne sans h = ground (arith, lookup-flip a d m.cert_and_keys)

module _ (d : String) (m : Memory) where
  -- `RemoveManagedDomain` on both branches.
  pub remove_lem : remove_managed_domain d m ≡ (
      if contains m.managed_domains d
      then (ok tt, record m { managed_domains = without d m.managed_domains })
      else (err ("domain " <> d <> " is not managed"), m))
  unfolding remove_managed_domain
  remove_lem = ground (arith, found-itself d m.managed_domains, kept-itself d m.managed_domains)

  -- `AddManagedDomainWithSANs` on both branches.
  pub add_lem :
      (sans : List String)
      → add_managed_domain_with_sans d sans m ≡ (
          if contains m.managed_domains d
          then (err ("domain " <> d <> " is already managed"), m)
          else (
            ok tt,
            record m {
              managed_domains = m.managed_domains ++ (d ∷ []);
              cert_and_keys = flip_to_managed d m.cert_and_keys;
            },
          ))
  unfolding add_managed_domain_with_sans
  add_lem sans = rw is_listed-itself

  managed-remove :
      (l : List String)
      → get_managed_domains m ≡ ok l
      → (remove_managed_domain d m).0 ≡ ok tt
      → (contains l d ≡ true)
        × (get_managed_domains (remove_managed_domain d m).1 ≡ ok (without d l))
  unfolding get_managed_domains
  managed-remove l e h = ground (arith, remove_lem)

  managed-add :
      (sans l : List String)
      → get_managed_domains m ≡ ok l
      → (add_managed_domain_with_sans d sans m).0 ≡ ok tt
      → (contains l d ≡ false)
        × (get_managed_domains (add_managed_domain_with_sans d sans m).1 ≡ ok (l ++ (d ∷ [])))
  unfolding get_managed_domains
  managed-add sans l e h = ground (arith, add_lem sans)

module _ (d : String) (m : Memory) (sans : List String) where
  get-add :
      (c : CertAndKey)
      → get_cert_and_key d m ≡ ok c
      → c.common_name ≢ ""
      → (add_managed_domain_with_sans d sans m).0 ≡ ok tt
      → get_cert_and_key d (add_managed_domain_with_sans d sans m).1 ≡ ok (as_managed c)
  unfolding get_cert_and_key
  get-add c e named r = elim (Option-cases (lookup d m.cert_and_keys)) [
    | inl p ↦ absurd (ground arith)
    | inr (x, p) ↦ ground (arith, add_lem d m sans, lookup-flip d d m.cert_and_keys, ==_self d)
  ]

  get-add_err :
      (e : String)
      → (add_managed_domain_with_sans d sans m).0 ≡ err e
      → get_cert_and_key d (add_managed_domain_with_sans d sans m).1 ≡ get_cert_and_key d m
  get-add_err e r = ground (arith, add_lem d m sans)

  get-add_cases :
      (get_cert_and_key d (add_managed_domain_with_sans d sans m).1 ≡ get_cert_and_key d m)
      ⊎ ((c : CertAndKey) × (get_cert_and_key d m ≡ ok c)
          × (get_cert_and_key d (add_managed_domain_with_sans d sans m).1 ≡ ok (as_managed c)))
      ⊎ (get_cert_and_key d (add_managed_domain_with_sans d sans m).1 ≡ ok (placeholder d sans))
  unfolding get_cert_and_key
  get-add_cases = elim (Bool-cases (contains m.managed_domains d)) [
    | inl listed ↦ inl (ground (arith, add_lem d m sans))
    | inr fresh ↦ elim (Option-cases (lookup d m.cert_and_keys)) [
      | inl p ↦ inl (ground (arith, add_lem d m sans, lookup-flip d d m.cert_and_keys, ==_self d))
      | inr (c, p) ↦ inr (
          inl (
            c,
            ground arith,
            ground (arith, add_lem d m sans, lookup-flip d d m.cert_and_keys, ==_self d),
          ))
    ]
  ]

-- The memory back end keeps the contract of the interface, for every domain name.
pub memory-IsLawful : IsLawful memory (λ _. Unit {0})
unfolding get_cert_and_key get_leaf_cert store_cert_and_key delete_cert_and_key get_managed_domains
    is_managed_domain
memory-IsLawful = record {
  get-store = λ d c s h. ground (arith, get-store_if d d s c);
  get-store_ne = λ a d c s _ _ h. ground (arith, get-store_if a d s c);
  managed-store = λ d c s _. refl;
  get-delete = λ d s h. ground (arith, get-delete_if d d s);
  get-delete_ne = λ a d s _ _ h. ground (arith, get-delete_if a d s);
  managed-delete = λ d s _. refl;
  leaf_lem = λ d s. ground arith;
  is_managed_lem = λ d s. rw is_listed-itself;
  managed-remove = λ d s l e h. managed-remove d s l e h;
  get-remove = λ a d s _. get-remove_lem a d s;
  managed-add = λ d sans s l _ e h. managed-add d s sans l e h;
  get-add_ne = λ a d sans s _ _ h. get-add_ne a d s sans h;
  add_lem = λ d s. unfold add_managed_domain in refl;
  get-add = λ d sans c s _ _ e named r. get-add d s sans c e named r;
  get-add_err = λ d sans e s _ r. get-add_err d s sans e r;
  get-add_cases = λ d sans s _ _. get-add_cases d s sans;
}
