-- ===== src/Keystore/Laws.antt =====
-- What the callers of a keystore rely on, whichever the back end: the contract of the interface.
-- A back end fills this record for the domain names that it `Accepts`.
use go_acme_store.Common.{
  String, ◌≡◌, ◌≢◌, ◌⊎◌, true, false, List, [], ◌∷◌, ◌++◌, Result, ok, err, arith, contains,
  without,
}
use go_acme_store.Keystore.{Keystore}
use go_acme_store.Keystore.Types.{CertAndKey, no_cert}
use go_acme_store.Keystore.Adoption.{placeholder}

abbrev pub ok_map {ℓ κ} : {A : Type ℓ} {B : Type κ} → (A → B) → Result A → Result B
ok_map f (ok a) = ok (f a)
ok_map f (err e) = err e

-- Every store succeeds.
abbrev pub IsReliable : Keystore → Type 0
IsReliable K = (d : String) (c : CertAndKey) (s : K.State) → (K.store_cert_and_key d c s).0 ≡ ok tt

abbrev pub as_managed : CertAndKey → CertAndKey
as_managed c = record c { managed = true }

pub as_managed_id : (c : CertAndKey) → c.managed ≡ true → c ≡ as_managed c
as_managed_id c h = ground arith

pub record IsLawful (K : Keystore) (Accepts : String → Type 0) : Type 0 where
  pub get-store :
      (d : String) (c : CertAndKey) (s : K.State)
      → (K.store_cert_and_key d c s).0 ≡ ok tt
      → K.get_cert_and_key d (K.store_cert_and_key d c s).1 ≡ ok c
  pub get-store_ne :
      (a d : String) (c : CertAndKey) (s : K.State)
      → Accepts a
      → Accepts d
      → a ≢ d
      → K.get_cert_and_key a (K.store_cert_and_key d c s).1 ≡ K.get_cert_and_key a s
  pub managed-store :
      (d : String) (c : CertAndKey) (s : K.State)
      → Accepts d
      → K.get_managed_domains (K.store_cert_and_key d c s).1 ≡ K.get_managed_domains s
  pub get-delete :
      (d : String) (s : K.State)
      → (K.delete_cert_and_key d s).0 ≡ ok tt
      → K.get_cert_and_key d (K.delete_cert_and_key d s).1 ≡ ok no_cert
  pub get-delete_ne :
      (a d : String) (s : K.State)
      → Accepts a
      → Accepts d
      → a ≢ d
      → K.get_cert_and_key a (K.delete_cert_and_key d s).1 ≡ K.get_cert_and_key a s
  pub managed-delete :
      (d : String) (s : K.State)
      → Accepts d
      → K.get_managed_domains (K.delete_cert_and_key d s).1 ≡ K.get_managed_domains s
  pub leaf_lem :
      (d : String) (s : K.State)
      → K.get_leaf_cert d s ≡ ok_map (λ (c : CertAndKey). c.leaf_cert_pem) (K.get_cert_and_key d s)
  pub is_managed_lem :
      (d : String) (s : K.State)
      → K.is_managed_domain d s ≡ ok_map (λ l. contains l d) (K.get_managed_domains s)
  pub managed-remove :
      (d : String) (s : K.State) (l : List String)
      → K.get_managed_domains s ≡ ok l
      → (K.remove_managed_domain d s).0 ≡ ok tt
      → (contains l d ≡ true)
        × (K.get_managed_domains (K.remove_managed_domain d s).1 ≡ ok (without d l))
  pub get-remove :
      (a d : String) (s : K.State)
      → Accepts a
      → K.get_cert_and_key a (K.remove_managed_domain d s).1 ≡ K.get_cert_and_key a s
  pub managed-add :
      (d : String) (sans : List String) (s : K.State) (l : List String)
      → Accepts d
      → K.get_managed_domains s ≡ ok l
      → (K.add_managed_domain_with_sans d sans s).0 ≡ ok tt
      → (contains l d ≡ false)
        × (K.get_managed_domains (K.add_managed_domain_with_sans d sans s).1 ≡ ok (l ++ (d ∷ [])))
  pub get-add_ne :
      (a d : String) (sans : List String) (s : K.State)
      → Accepts a
      → Accepts d
      → a ≢ d
      → K.get_cert_and_key a (K.add_managed_domain_with_sans d sans s).1 ≡ K.get_cert_and_key a s
  pub add_lem :
      (d : String) (s : K.State) → K.add_managed_domain d s ≡ K.add_managed_domain_with_sans d [] s
  -- A certificate that a domain has when it is added becomes managed.
  pub get-add :
      (d : String) (sans : List String) (c : CertAndKey) (s : K.State)
      → IsReliable K
      → Accepts d
      → K.get_cert_and_key d s ≡ ok c
      → c.common_name ≢ ""
      → (K.add_managed_domain_with_sans d sans s).0 ≡ ok tt
      → K.get_cert_and_key d (K.add_managed_domain_with_sans d sans s).1 ≡ ok (as_managed c)
  -- A call that fails leaves the certificate alone.
  pub get-add_err :
      (d : String) (sans : List String) (e : String) (s : K.State)
      → Accepts d
      → (K.add_managed_domain_with_sans d sans s).0 ≡ err e
      → K.get_cert_and_key d (K.add_managed_domain_with_sans d sans s).1 ≡ K.get_cert_and_key d s
  -- Whatever a call comes to, the certificate is left, becomes managed, or is a new placeholder.
  pub get-add_cases :
      (d : String) (sans : List String) (s : K.State)
      → IsReliable K
      → Accepts d
      → (K.get_cert_and_key d (K.add_managed_domain_with_sans d sans s).1 ≡ K.get_cert_and_key d s)
        ⊎ ((c : CertAndKey) × (K.get_cert_and_key d s ≡ ok c)
            × (K.get_cert_and_key d (K.add_managed_domain_with_sans d sans s).1
                ≡ ok (as_managed c)))
        ⊎ (K.get_cert_and_key d (K.add_managed_domain_with_sans d sans s).1
            ≡ ok (placeholder d sans))
