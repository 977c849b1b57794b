-- ===== src/Api/Backup/Counts.antt =====
-- The statistics that `handlerImportKeystore` reports.
use go_acme_store.Common.{
  ◌+◌, ◌≤◌, String, ◌≡◌, some, List, [], ◌∷◌, Result, ok, err, Result-cases, Bool-cases, inl, inr,
  arith, length,
}
use go_acme_store.Common.Dict.{Dict, lookup}
use go_acme_store.Keystore.{Keystore}
use go_acme_store.Keystore.Types.{CertAndKey}
use go_acme_store.Api.Response.{KeystoreExport, Statistics, imported, reply, with_keystore}
use go_acme_store.Api.Backup.{
  Tally, count_result, sans_of, zero_tally, import_certs, import_add, import_domain, import_domains,
  import_all, handler_import_keystore,
}

module _ (K : Keystore) where
  counted :
      (r : Result (Unit {0})) (t : Tally)
      → (count_result r t).done + (count_result r t).failed ≡ t.done + t.failed + 1
  counted (ok u) t = omega arith
  counted (err e) t = omega arith

  certs_counted :
      (certs : Dict CertAndKey) (t : Tally) (s : K.State)
      → (import_certs K certs t s).0.done + (import_certs K certs t s).0.failed
        ≡ t.done + t.failed + length certs
  unfolding import_certs
  certs_counted [] t s = omega arith
  certs_counted ((domain, cert) ∷ rest) t s =
      let (r, s') = K.store_cert_and_key domain cert s in
      omega (arith, certs_counted rest (count_result r t) s', counted r t)

  domain_counted :
      (certs : Dict CertAndKey) (domain : String) (t : Tally) (s : K.State)
      → (import_domain K certs domain t s).0.done + (import_domain K certs domain t s).0.failed
        ≤ t.done + t.failed + 1
  unfolding import_domain
  domain_counted certs domain t s = elim (Result-cases (K.is_managed_domain domain s)) [
    | inr (e, p) ↦ ground arith
    | inl (managed, p) ↦ elim (Bool-cases managed) [
      | inl old ↦ ground arith
      | inr new ↦
          ground (arith, counted (import_add K domain (sans_of (lookup domain certs)) s).0 t)
    ]
  ]

  domains_counted :
      (certs : Dict CertAndKey) (domains : List String) (t : Tally) (s : K.State)
      → (import_domains K certs domains t s).0.done + (import_domains K certs domains t s).0.failed
        ≤ t.done + t.failed + length domains
  unfolding import_domains
  domains_counted certs [] t s = omega arith
  domains_counted certs (domain ∷ rest) t s =
      let (t', s') = import_domain K certs domain t s in
      omega (arith, domains_counted certs rest t' s', domain_counted certs domain t s)

  -- An import of a dump of version 1.0 is answered with 200 and statistics that add up: each
  -- certificate is counted as imported or as failed, and there is at most one count for each
  -- listed domain.
  pub import-total :
      (dump : KeystoreExport) (s : K.State)
      → dump.version ≡ "1.0"
      → (n : Statistics) × ((handler_import_keystore K (ok dump) (some s)).0
          ≡ reply 200 (imported n))
        × (n.certificates_imported + n.certificates_failed ≡ length dump.certificates)
        × (n.domains_imported + n.domains_failed ≤ length dump.domains)
  unfolding handler_import_keystore import_all with_keystore
  import-total dump s current =
      let c = import_certs K dump.certificates zero_tally s in
      let d = import_domains K dump.certificates dump.domains zero_tally c.1 in
      (
        record {
          certificates_imported = c.0.done;
          certificates_failed = c.0.failed;
          certificates_total = length dump.certificates;
          domains_imported = d.0.done;
          domains_failed = d.0.failed;
          domains_total = length dump.domains;
        },
        ground arith,
        omega (arith, certs_counted dump.certificates zero_tally s),
        omega (arith, domains_counted dump.certificates dump.domains zero_tally c.1),
      )
