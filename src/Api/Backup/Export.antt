-- ===== src/Api/Backup/Export.antt =====
-- The loop of `handlerExportKeystore`, and the dump that it sends.
use go_acme_store.Common.{
  String, ◌≡◌, refl, sym, ap, some, List, [], ◌∷◌, ok, err, Result-cases, inl, inr, arith, ◌==◌,
  ==_ne, String-discrete, contains, Distinct, if◌then◌else◌,
}
use go_acme_store.Common.Dict.{Dict, keys, lookup, insert, lookup-insert, insert-Distinct}
use go_acme_store.Keystore.{Keystore}
use go_acme_store.Keystore.Types.{CertAndKey}
use go_acme_store.Api.Response.{KeystoreExport, exported, reply, with_keystore}
use go_acme_store.Api.Backup.{export_certs, handler_export_keystore}

-- What an export holds.
module _ (K : Keystore) (s : K.State) where
  -- The map after one round of the loop.
  abbrev with_cert : String → Dict CertAndKey → Dict CertAndKey
  with_cert d out = elim (K.get_cert_and_key d s) [ err e ↦ out | ok c ↦ insert d c out ]

  module _ (a : String) (c : CertAndKey) (stored : K.get_cert_and_key a s ≡ ok c) where
    lookup-with_cert :
        (d : String) (out : Dict CertAndKey)
        → lookup a (with_cert d out) ≡ (if d == a then some c else lookup a out)
    lookup-with_cert d out = elim (String-discrete d a) [
      | yes e ↦ ground (arith, ap (λ x. K.get_cert_and_key x s) e, lookup-insert a d c out)
      | no ne ↦ elim (Result-cases (K.get_cert_and_key d s)) [
        | inr (m, p) ↦ ground (arith, ==_ne d a ne)
        | inl (x, p) ↦
            ground (arith, lookup-insert a d x out, ==_ne d a ne, ==_ne a d (λ e. ne (sym e)))
      ]
    ]

    pub lookup-export :
        (ds : List String) (out : Dict CertAndKey)
        → lookup a (export_certs K s ds out) ≡ (if contains ds a then some c else lookup a out)
    unfolding export_certs
    lookup-export [] out = refl
    lookup-export (d ∷ ds) out =
        ground (arith, lookup-export ds (with_cert d out), lookup-with_cert d out)

  pub export-Distinct :
      (ds : List String) (out : Dict CertAndKey)
      → Distinct (keys out)
      → Distinct (keys (export_certs K s ds out))
  unfolding export_certs
  export-Distinct [] out h = h
  export-Distinct (d ∷ ds) out h = elim (Result-cases (K.get_cert_and_key d s)) [
    | inr (m, e) ↦ rw e (export-Distinct ds out h)
    | inl (c, e) ↦ rw e (export-Distinct ds (insert d c out) (insert-Distinct d c out h))
  ]

  -- The dump of a keystore whose lists can be read.
  pub export_lem :
      (time : String) (dump : KeystoreExport) (ds l : List String)
      → K.get_all_domains s ≡ ok ds
      → K.get_managed_domains s ≡ ok l
      → (handler_export_keystore K time (some s)).0 ≡ reply 200 (exported dump)
      → (dump.version ≡ "1.0") × (dump.domains ≡ l) × (dump.certificates ≡ export_certs K s ds [])
  unfolding handler_export_keystore with_keystore
  export_lem time dump ds l all listed sent = elim (Result-cases (K.get_acme_account s)) [
    | inr (e, p) ↦ absurd (ground arith)
    | inl (account, p) ↦ ground arith
  ]
