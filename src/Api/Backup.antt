-- ===== src/Api/Backup.antt =====
-- `handlerExportKeystore` and `handlerImportKeystore`.
pub mod Counts
pub mod Export
pub mod Import
pub mod Migration
use go_acme_store.Common.{
  ℕ, ◌+◌, String, ◌<>◌, Option, none, some, List, [], ◌∷◌, Result, ok, err, ◌==◌, if◌then◌else◌,
  length,
}
use go_acme_store.Common.Dict.{Dict, lookup, insert}
use go_acme_store.Keystore.{Keystore}
use go_acme_store.Keystore.Types.{CertAndKey}
use go_acme_store.Api.Response.{
  KeystoreExport, exported, imported, Response, reply, refuse, Handler, with_keystore, reading,
}

-- The counters of an import.
pub record Tally : Type 0 where
  pub done : ℕ
  pub failed : ℕ

abbrev pub count_result : Result (Unit {0}) → Tally → Tally
count_result (ok _) t = record t { done = t.done + 1 }
count_result (err e) t = record t { failed = t.failed + 1 }

abbrev pub zero_tally : Tally
zero_tally = record { done = 0; failed = 0 }

-- A slice is read as absent where it is empty.
abbrev pub sans_of : Option CertAndKey → List String
sans_of none = []
sans_of (some c) = c.sans

module _ (K : Keystore) where
  -- The loop of the export: a certificate that cannot be read is left out.
  unfoldable pub export_certs : K.State → List String → Dict CertAndKey → Dict CertAndKey
  export_certs s [] out = out
  export_certs s (domain ∷ domains) out =
      export_certs s domains
        (elim (K.get_cert_and_key domain s) [ err e ↦ out | ok c ↦ insert domain c out ])

  -- `exported_at` is the time of the request.
  unfoldable pub handler_export_keystore : String → Handler K.State
  unfolding export_certs
  handler_export_keystore exported_at = with_keystore (
      reading (λ s. elim (K.get_acme_account s) [
        | err e ↦ refuse 500 ("failed to get ACME account: " <> e)
        | ok account ↦ elim (K.get_all_domains s) [
          | err e ↦ refuse 500 ("failed to get domains: " <> e)
          | ok domains ↦ elim (K.get_managed_domains s) [
            | err e ↦ refuse 500 ("failed to get managed domains: " <> e)
            | ok managed ↦ reply 200 (
                exported (record {
                  version = "1.0";
                  exported_at = exported_at;
                  acme_account = account;
                  certificates = export_certs s domains [];
                  domains = managed;
                }))
          ]
        ]
      ]))

  -- The loop over `importData.Certificates`.
  unfoldable pub import_certs : Dict CertAndKey → Tally → K.State → Tally × K.State
  import_certs [] t s = (t, s)
  import_certs ((domain, cert) ∷ rest) t s =
      let (r, s') = K.store_cert_and_key domain cert s in import_certs rest (count_result r t) s'

  unfoldable pub import_add : String → List String → K.State → Result (Unit {0}) × K.State
  import_add domain [] = K.add_managed_domain domain
  import_add domain (san ∷ sans) = K.add_managed_domain_with_sans domain (san ∷ sans)

  -- The body of the loop over `importData.Domains`.
  unfoldable pub import_domain : Dict CertAndKey → String → Tally → K.State → Tally × K.State
  unfolding import_add
  import_domain certs domain t s = elim (K.is_managed_domain domain s) [
    | err e ↦ (record t { failed = t.failed + 1 }, s)
    | ok managed ↦
        if managed
        then (t, s)
        else (let (r, s') = import_add domain (sans_of (lookup domain certs)) s in
            (count_result r t, s'))
  ]

  unfoldable pub import_domains : Dict CertAndKey → List String → Tally → K.State → Tally × K.State
  unfolding import_domain
  import_domains certs [] t s = (t, s)
  import_domains certs (domain ∷ rest) t s =
      let (t', s') = import_domain certs domain t s in import_domains certs rest t' s'

  -- Both loops, one after the other.
  unfoldable pub import_all : KeystoreExport → K.State → Response × K.State
  unfolding import_certs import_domains
  import_all dump s =
      let (c, s1) = import_certs dump.certificates zero_tally s in
      let (d, s2) = import_domains dump.certificates dump.domains zero_tally s1 in
      (
        reply 200 (
            imported (record {
              certificates_imported = c.done;
              certificates_failed = c.failed;
              certificates_total = length dump.certificates;
              domains_imported = d.done;
              domains_failed = d.failed;
              domains_total = length dump.domains;
            })),
        s2,
      )

  -- An error is one of `BodyParser`.
  unfoldable pub handler_import_keystore : Result KeystoreExport → Handler K.State
  unfolding import_all
  handler_import_keystore body = with_keystore (λ s. elim body [
    | err e ↦ (refuse 400 ("invalid import data: " <> e), s)
    | ok dump ↦
        if dump.version == "1.0"
        then import_all dump s
        else (refuse 400 ("unsupported export version: " <> (dump.version <> " (expected 1.0)")), s)
  ])
