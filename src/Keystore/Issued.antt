-- ===== src/Keystore/Issued.antt =====
-- pkg/keystore/keystore.go: the record of a certificate that was obtained.
use go_acme_store.Common.{
  Option-cases, inl, inr, String, ◌≡◌, true, none, some, List, [], ◌∷◌, Result, ok, err, ◌==◌,
  if◌then◌else◌, arith,
}
use go_acme_store.Crypto.{Pki}
use go_acme_store.Crypto.Certificates.{Cert, get_leaf_cert, get_issuers_cn, cert_to_pem}
use go_acme_store.Keystore.Types.{CertAndKey, no_cert}

-- If CN is empty, the first SAN.
unfoldable pub name_of : String → List String → String
name_of cn [] = cn
name_of cn (san ∷ sans) = if cn == "" then san else cn

module _ (p : Pki) where
  unfoldable pub populate_missing_fields : CertAndKey → Result CertAndKey
  unfolding name_of
  populate_missing_fields c = elim (get_leaf_cert p c.cert_chain_pem) [
    | none ↦ err "could not decode certificate"
    | some cert ↦ ok (record c {
      leaf_cert_pem = cert_to_pem p cert;
      common_name = name_of cert.subject_common_name cert.dns_names;
      issued_on = p.time_string cert.not_before;
      expiration = p.time_string cert.not_after;
      sans = cert.dns_names;
      issuers = get_issuers_cn p c.cert_chain_pem;
    })
  ]

  unfoldable pub new_cert_and_key : String → String → String → Result CertAndKey
  unfolding populate_missing_fields
  new_cert_and_key cert_chain private_key cert_url = populate_missing_fields (record no_cert {
    cert_chain_pem = cert_chain;
    cert_chain_url = cert_url;
    private_key_pem = private_key;
    managed = true;
    status = "issued";
  })

  -- A record that NewCertAndKey returns without an error is managed and issued, keeps the chain,
  -- the key and the URL that it was given, and has the PEM and the names of the first leaf
  -- certificate of the chain, which exists.
  pub new_cert_and_key_lem :
      (chain key url : String) (c : CertAndKey)
      → new_cert_and_key chain key url ≡ ok c
      → (c.managed ≡ true)
        × (c.status ≡ "issued")
        × (c.error ≡ "")
        × (c.cert_chain_pem ≡ chain)
        × (c.private_key_pem ≡ key)
        × (c.cert_chain_url ≡ url)
        × ((leaf : Cert p) × (get_leaf_cert p chain ≡ some leaf)
            × (c.leaf_cert_pem ≡ cert_to_pem p leaf)
            × (c.sans ≡ leaf.dns_names))
  unfolding new_cert_and_key
  new_cert_and_key_lem chain key url c h = elim (Option-cases (get_leaf_cert p chain)) [
    | inl e ↦ absurd (ground arith)
    | inr (leaf, e) ↦ (
      ground arith,
      ground arith,
      ground arith,
      ground arith,
      ground arith,
      ground arith,
      (leaf, e, ground arith, ground arith),
    )
  ]
