-- ===== src/Api/Certs.antt =====
-- The handlers under /api/certs.
pub mod Laws
use go_acme_store.Common.{
  ℕ, String, ◌<>◌, Bool, true, false, not, ◌&&◌, Option, none, some, List, [], ◌∷◌, ◌++◌, Result,
  ok, err, ◌==◌, if◌then◌else◌,
}
use go_acme_store.Keystore.{Keystore}
use go_acme_store.Keystore.Types.{CertAndKey}
use go_acme_store.Api.Response.{
  CertInfo, Body, certs, message, private_key, Response, reply, refuse, Handler, with_keystore,
  reading,
}

-- The status shown: one that is not set is read off the certificate.
unfoldable pub shown_status : CertAndKey → String
shown_status c =
    if c.status == "" && not (c.leaf_cert_pem == "")
    then "issued"
    else if c.status == ""
    then "pending"
    else c.status

unfoldable pub cert_info : CertAndKey → CertInfo
unfolding shown_status
cert_info c = record {
  common_name = c.common_name;
  sans = c.sans;
  leaf_cert = c.leaf_cert_pem;
  cert_chain = c.cert_chain_pem;
  cert_chain_url = c.cert_chain_url;
  issuers = c.issuers;
  issued_on = c.issued_on;
  expires_on = c.expiration;
  managed = c.managed;
  status = shown_status c;
  error = c.error;
}

module _ (K : Keystore) where
  -- What one domain adds to the response of `handlerCerts`.
  unfoldable pub listed_cert : Result CertAndKey → List CertInfo
  unfolding cert_info
  listed_cert (err e) = []
  listed_cert (ok c) = if c.common_name == "" then [] else cert_info c ∷ []

  unfoldable pub cert_infos : K.State → List String → List CertInfo
  cert_infos s [] = []
  cert_infos s (domain ∷ domains) =
      listed_cert (K.get_cert_and_key domain s) ++ cert_infos s domains

  unfoldable pub handler_certs : Handler K.State
  handler_certs = with_keystore (
      reading (λ s. elim (K.get_all_domains s) [
        | err e ↦ refuse 500 ("failed to get domains: " <> e)
        | ok domains ↦ reply 200 (certs (cert_infos s domains))
      ]))

  unfoldable pub handler_get_private_key : String → Handler K.State
  handler_get_private_key domain = with_keystore (
      reading (λ s.
        if domain == ""
        then refuse 400 "domain parameter is required"
        else (elim (K.get_cert_and_key domain s) [
          | err e ↦ refuse 500 ("failed to retrieve certificate: " <> e)
          | ok c ↦
              if c.common_name == ""
              then refuse 404 ("certificate not found for domain " <> domain)
              else reply 200 (private_key domain c.private_key_pem)
        ])))

  -- `handlerDeleteCert` from the look-up on.
  unfoldable pub delete_found : String → Result CertAndKey → K.State → Response × K.State
  delete_found domain (err e) s = (refuse 404 ("certificate not found for domain " <> domain), s)
  delete_found domain (ok c) s =
      if c.managed
      then (
        refuse 400 (
            "cannot delete managed certificate for domain "
            <> (domain <> (", unmanage it first by calling DELETE /api/domains/" <> domain))),
        s,
      )
      else (let (r, s') = K.delete_cert_and_key domain s in
          elim r [
            | err e ↦ (refuse 500 ("failed to delete certificate: " <> e), s')
            | ok _ ↦ (
              reply 200 (
                  message ("certificate for domain " <> (domain <> " deleted successfully"))
                    domain),
              s',
            )
          ])

  unfoldable pub handler_delete_cert : String → Handler K.State
  unfolding delete_found
  handler_delete_cert domain = with_keystore (λ s.
      if domain == ""
      then (refuse 400 "domain parameter is required", s)
      else delete_found domain (K.get_cert_and_key domain s) s)
