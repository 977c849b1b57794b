-- ===== src/Keystore/Adoption.antt =====
-- The end of `AddManagedDomainWithSANs`, the same in filesystem.go and vault.go: what becomes of
-- the certificate of a domain that is managed from now on.
use go_acme_store.Common.{
  String, true, not, ◌&&◌, Option, none, some, List, Result, ok, err, ◌==◌, if◌then◌else◌, ◌≡◌, ◌⊎◌,
  refl, inl, inr, Bool-cases, arith,
}
use go_acme_store.Keystore.Types.{CertAndKey, no_cert}

abbrev pub placeholder : String → List String → CertAndKey
placeholder domain sans = record no_cert {
  common_name = domain;
  sans = sans;
  managed = true;
  status = "pending";
}

-- What is stored for the domain, from what `GetCertAndKey` returned.
unfoldable pub adoption : String → List String → Result CertAndKey → Option CertAndKey
adoption domain sans (ok cert) =
    if not (cert.common_name == "") && not cert.managed
    then some (record cert { managed = true })
    else if cert.common_name == ""
    then some (placeholder domain sans)
    else none
adoption domain sans (err e) = some (placeholder domain sans)

-- What is stored is the certificate that was read, as managed, or the placeholder.
pub adoption-cases :
    (domain : String) (sans : List String) (r : Result CertAndKey) (stored : CertAndKey)
    → adoption domain sans r ≡ some stored
    → ((c : CertAndKey) × (r ≡ ok c) × (stored ≡ record c { managed = true }))
      ⊎ (stored ≡ placeholder domain sans)
unfolding adoption
adoption-cases domain sans (err e) stored h = inr (ground arith)
adoption-cases domain sans (ok c) stored h = elim (Bool-cases (c.common_name == "")) [
  | inl nameless ↦ inr (ground arith)
  | inr named ↦ elim (Bool-cases c.managed) [
    | inl old ↦ absurd (ground arith)
    | inr new ↦ inl (c, refl, ground arith)
  ]
]
