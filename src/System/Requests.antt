-- ===== src/System/Requests.antt =====
-- What each request leaves of the certificate of a domain that it spares.
use go_acme_store.Common.{
  String, ◌≡◌, ◌≢◌, ◌⊎◌, refl, sym, ap, false, Option, none, some, List, [], ◌∷◌, Result, ok, err,
  arith, Result-cases, Bool-cases, inl, inr, contains, All, ◌==◌,
}
use mathlib.Core.Path.{subst}
use go_acme_store.Common.Dict.{Dict, keys, lookup}
use go_acme_store.Keystore.{Keystore}
use go_acme_store.Keystore.Types.{CertAndKey}
use go_acme_store.Keystore.Laws.{IsLawful, IsReliable}
use go_acme_store.Api.Response.{KeystoreExport, with_keystore}
use go_acme_store.Api.Domains.{
  AddDomainRequest, add_domain, handler_add_domain, mark_unmanaged, hard_delete, soft_delete,
  handler_remove_domain,
}
use go_acme_store.Api.Certs.{delete_found, handler_delete_cert}
use go_acme_store.Api.Backup.{
  Tally, zero_tally, count_result, sans_of, import_certs, import_add, import_domain, import_domains,
  import_all, handler_import_keystore,
}
use go_acme_store.System.{Request, add, remove, delete, restore, handle}
use go_acme_store.System.Kept.{
  Keeps, Keeps-same, Keeps-trans, Leaves, Leaves-same, add-Keeps, delete-Keeps, Remarks-Keeps,
  mark-Remarks, remove-Keeps,
}

-- The request takes nothing away from `a`, and the names in it are accepted.
abbrev pub Spares : (String → Type 0) → String → Request → Type 0
Spares Accepts a (add none) = Unit
Spares Accepts a (add (some q)) = Accepts q.domain
Spares Accepts a (remove d flag) = Accepts d × ((d ≢ a) ⊎ ((flag == "true") ≡ false))
Spares Accepts a (delete d) = Accepts d × (d ≢ a)
Spares Accepts a (restore (err e)) = Unit
Spares Accepts a (restore (ok dump)) =
    All Accepts (keys dump.certificates)
    × (contains (keys dump.certificates) a ≡ false)
    × All Accepts dump.domains

module _ (K : Keystore) {Accepts : String → Type 0} (L : IsLawful K Accepts)
    (reliable : IsReliable K) (a : String) (ha : Accepts a) where
  add-Leaves :
      (q : Option AddDomainRequest) (s : K.State)
      → Spares Accepts a (add q)
      → Leaves K L reliable a ha s (handler_add_domain K q (some s)).1
  unfolding handler_add_domain add_domain with_keystore
  add-Leaves none s spares = Leaves-same K L reliable a ha s _ refl
  add-Leaves (some q) s hd = elim (Bool-cases (q.domain == "")) [
    | inl empty ↦ Leaves-same K L reliable a ha s _ (ground arith)
    | inr given ↦ elim (Result-cases (K.add_managed_domain_with_sans q.domain q.sans s).0) [
      | inl (u, p) ↦ (_, ground arith, add-Keeps K L reliable a ha q.domain q.sans s hd)
      | inr (e, p) ↦ (_, ground arith, add-Keeps K L reliable a ha q.domain q.sans s hd)
    ]
  ]

  delete-Leaves :
      (d : String) (s : K.State)
      → Spares Accepts a (delete d)
      → Leaves K L reliable a ha s (handler_delete_cert K d (some s)).1
  unfolding handler_delete_cert delete_found with_keystore
  delete-Leaves d s (hd, ne) = elim (Bool-cases (d == "")) [
    | inl empty ↦ Leaves-same K L reliable a ha s _ (ground arith)
    | inr given ↦ elim (Result-cases (K.get_cert_and_key d s)) [
      | inr (e, p) ↦ Leaves-same K L reliable a ha s _ (ground arith)
      | inl (c, p) ↦ elim (Bool-cases c.managed) [
        | inl managed ↦ Leaves-same K L reliable a ha s _ (ground arith)
        | inr unmanaged ↦ elim (Result-cases (K.delete_cert_and_key d s).0) [
          | inl (u, q) ↦ (_, ground arith, delete-Keeps K L reliable a ha d s hd ne)
          | inr (e, q) ↦ (_, ground arith, delete-Keeps K L reliable a ha d s hd ne)
        ]
      ]
    ]
  ]

  hard_state :
      (d : String) (removed : Result (Unit {0})) (s : K.State)
      → (hard_delete K d removed s).1 ≡ (K.delete_cert_and_key d s).1
  unfolding hard_delete
  hard_state d removed s = elim (Result-cases (K.delete_cert_and_key d s).0) [
    | inl (u, p) ↦ ground arith
    | inr (e, p) ↦ elim (Result-cases removed) [
      | inl (v, q) ↦ ground arith
      | inr (f, q) ↦ ground arith
    ]
  ]

  remove-Leaves :
      (d flag : String) (s : K.State)
      → Spares Accepts a (remove d flag)
      → Leaves K L reliable a ha s (handler_remove_domain K d flag (some s)).1
  unfolding handler_remove_domain soft_delete with_keystore
  remove-Leaves d flag s (hd, spared) =
      let s' : K.State = (K.remove_managed_domain d s).1 in
      let gone : Keeps K a s s' = remove-Keeps K L reliable a ha d s in
      elim (Bool-cases (d == "")) [
        | inl empty ↦ Leaves-same K L reliable a ha s _ (ground arith)
        | inr given ↦ elim (Bool-cases (flag == "true")) [
          | inl hard ↦
              let ne : d ≢ a = elim spared [ inl n ↦ n | inr n ↦ absurd (ground arith) ] in
              (
                (K.delete_cert_and_key d s').1,
                ground (arith, hard_state d (K.remove_managed_domain d s).0 s'),
                Keeps-trans K a s s' _ gone (delete-Keeps K L reliable a ha d s' hd ne),
              )
          | inr soft ↦ elim (Result-cases (K.remove_managed_domain d s).0) [
            | inr (e, p) ↦ (s', ground arith, gone)
            | inl (u, p) ↦ (
              mark_unmanaged K d s',
              ground arith,
              Keeps-trans K a s s' _ gone
                  (Remarks-Keeps K L reliable a ha d s' _ hd (mark-Remarks K L reliable a ha d s')),
            )
          ]
        ]
      ]

  certs-Keeps :
      (certs : Dict CertAndKey) (t : Tally) (s : K.State)
      → All Accepts (keys certs)
      → contains (keys certs) a ≡ false
      → Keeps K a s (import_certs K certs t s).1
  unfolding import_certs
  certs-Keeps [] t s hs out = Keeps-same K a s s refl
  certs-Keeps ((d, c) ∷ rest) t s (hd, hs) out =
      let (r, s') = K.store_cert_and_key d c s in
      Keeps-trans K a s s' _
        (Keeps-same K a s s' (L.get-store_ne a d c s ha hd (λ e. ground arith)))
        (certs-Keeps rest (count_result r t) s' hs (ground arith))

  import_add-Keeps :
      (d : String) (sans : List String) (s : K.State)
      → Accepts d
      → Keeps K a s (import_add K d sans s).1
  unfolding import_add
  import_add-Keeps d [] s hd =
      subst (λ (x : Result (Unit {0}) × K.State). Keeps K a s x.1) (sym (L.add_lem d s))
        (add-Keeps K L reliable a ha d [] s hd)
  import_add-Keeps d (san ∷ sans) s hd = add-Keeps K L reliable a ha d (san ∷ sans) s hd

  one_state :
      (certs : Dict CertAndKey) (d : String) (t : Tally) (s : K.State)
      → ((import_domain K certs d t s).1 ≡ s)
        ⊎ ((import_domain K certs d t s).1 ≡ (import_add K d (sans_of (lookup d certs)) s).1)
  unfolding import_domain
  one_state certs d t s = elim (Result-cases (K.is_managed_domain d s)) [
    | inr (e, p) ↦ inl (ground arith)
    | inl (m, p) ↦ elim (Bool-cases m) [
      | inl managed ↦ inl (ground arith)
      | inr unmanaged ↦ inr (ground arith)
    ]
  ]

  one-Keeps :
      (certs : Dict CertAndKey) (d : String) (t : Tally) (s : K.State)
      → Accepts d
      → Keeps K a s (import_domain K certs d t s).1
  one-Keeps certs d t s hd =
      let sans : List String = sans_of (lookup d certs) in
      elim (one_state certs d t s) [
        | inl p ↦ Keeps-same K a s _ (ap (K.get_cert_and_key a) p)
        | inr p ↦ subst (λ x. Keeps K a s x) (sym p) (import_add-Keeps d sans s hd)
      ]

  domains-Keeps :
      (certs : Dict CertAndKey) (ds : List String) (t : Tally) (s : K.State)
      → All Accepts ds
      → Keeps K a s (import_domains K certs ds t s).1
  unfolding import_domains
  domains-Keeps certs [] t s hs = Keeps-same K a s s refl
  domains-Keeps certs (d ∷ ds) t s (hd, hs) =
      let (t', s') = import_domain K certs d t s in
      Keeps-trans K a s s' _ (one-Keeps certs d t s hd) (domains-Keeps certs ds t' s' hs)

  restore-Leaves :
      (body : Result KeystoreExport) (s : K.State)
      → Spares Accepts a (restore body)
      → Leaves K L reliable a ha s (handler_import_keystore K body (some s)).1
  unfolding handler_import_keystore import_all with_keystore
  restore-Leaves (err e) s spares = Leaves-same K L reliable a ha s _ refl
  restore-Leaves (ok dump) s (hks, out, hds) =
      let mid : K.State = (import_certs K dump.certificates zero_tally s).1 in
      elim (Bool-cases (dump.version == "1.0")) [
        | inr old ↦ Leaves-same K L reliable a ha s _ (ground arith)
        | inl current ↦ (
          (import_domains K dump.certificates dump.domains zero_tally mid).1,
          ground arith,
          Keeps-trans K a s mid _ (certs-Keeps dump.certificates zero_tally s hks out)
              (domains-Keeps dump.certificates dump.domains zero_tally mid hds),
        )
      ]

  -- Every request that spares a domain leaves a keystore in which the domain's named certificate has
  -- the key that it had.
  pub request-Leaves :
      (r : Request) (s : K.State)
      → Spares Accepts a r
      → Leaves K L reliable a ha s (handle K r (some s)).1
  unfolding handle
  request-Leaves (add q) s h = add-Leaves q s h
  request-Leaves (remove d flag) s h = remove-Leaves d flag s h
  request-Leaves (delete d) s h = delete-Leaves d s h
  request-Leaves (restore body) s h = restore-Leaves body s h
