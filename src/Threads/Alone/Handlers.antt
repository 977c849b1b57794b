-- ===== src/Threads/Alone/Handlers.antt =====
-- A request that nobody disturbs is answered as its handler answers it.
use go_acme_store.Common.{
  String, ◌≡◌, refl, ◌∙◌, some, none, Option, List, [], ◌∷◌, Result, ok, err, arith, Result-cases,
  Bool-cases, List-cases, inl, inr, ◌==◌,
}
use go_acme_store.Common.Dict.{Dict, lookup}
use go_acme_store.Keystore.{Keystore}
use go_acme_store.Keystore.Types.{CertAndKey}
use go_acme_store.Api.Response.{KeystoreExport, Response, with_keystore}
use go_acme_store.Api.Domains.{
  AddDomainRequest, add_domain, handler_add_domain, mark_unmanaged, hard_delete, soft_delete,
  handler_remove_domain,
}
use go_acme_store.Api.Certs.{delete_found, handler_delete_cert}
use go_acme_store.Api.Backup.{
  Tally, count_result, sans_of, zero_tally, import_certs, import_add, import_domain, import_domains,
  import_all, handler_import_keystore,
}
use go_acme_store.System.{Request, add, remove, delete, restore, handle}
use go_acme_store.Threads.{is_managed, replied, Thread, done, call, do_call, alone}
use go_acme_store.Threads.Handlers.{
  serve_add, unmark, hard_reply, serve_remove, deleted_reply, serve_delete, restore_certs,
  restore_checked, restore_add, add_reply, unmark_found, soft_remove, delete_looked_up,
  restore_domains, restored_reply, restore_all, serve_restore, serve,
}

module _ (K : Keystore) where
  alone-unmark :
      (d : String) (k : Thread) (s : K.State)
      → alone K (unmark d k) s ≡ alone K k (mark_unmanaged K d s)
  unfolding alone do_call unmark unmark_found mark_unmanaged
  alone-unmark d k s = elim (Result-cases (K.get_cert_and_key d s)) [
    | inr (m, p) ↦ ground arith
    | inl (c, p) ↦ elim (Bool-cases (c.common_name == "")) [
      | inl nameless ↦ ground arith
      | inr named ↦ ground arith
    ]
  ]

  -- The thread answers and leaves the keystore as the handler does.
  abbrev pub Serves : Thread → Response × Option K.State → K.State → Type 0
  Serves p r s = ((alone K p s).0 ≡ replied r.0) × (r.1 ≡ some (alone K p s).1)

  add-Serves :
      (q : Option AddDomainRequest) (s : K.State)
      → Serves (serve_add q) (handler_add_domain K q (some s)) s
  unfolding serve_add add_reply handler_add_domain add_domain with_keystore alone do_call
  add-Serves none s = (refl, refl)
  add-Serves (some q) s = elim (Bool-cases (q.domain == "")) [
    | inl empty ↦ (ground arith, ground arith)
    | inr given ↦ elim (Result-cases (K.add_managed_domain_with_sans q.domain q.sans s).0) [
      | inl (u, p) ↦ (ground arith, ground arith)
      | inr (e, p) ↦ (ground arith, ground arith)
    ]
  ]

  remove-Serves :
      (d flag : String) (s : K.State)
      → Serves (serve_remove d flag) (handler_remove_domain K d flag (some s)) s
  unfolding serve_remove soft_remove handler_remove_domain hard_delete soft_delete hard_reply
      with_keystore alone do_call
  remove-Serves d flag s =
      let removed : Result (Unit {0}) × K.State = K.remove_managed_domain d s in
      let deleted : Result (Unit {0}) × K.State = K.delete_cert_and_key d removed.1 in
      elim (Bool-cases (d == "")) [
        | inl empty ↦ (ground arith, ground arith)
        | inr given ↦ elim (Bool-cases (flag == "true")) [
          | inl hard ↦ elim (Result-cases removed.0) [
            | inl (u, p) ↦ elim (Result-cases deleted.0) [
              | inl (v, q) ↦ (ground arith, ground arith)
              | inr (e, q) ↦ (ground arith, ground arith)
            ]
            | inr (e', p) ↦ elim (Result-cases deleted.0) [
              | inl (v, q) ↦ (ground arith, ground arith)
              | inr (e, q) ↦ (ground arith, ground arith)
            ]
          ]
          | inr soft ↦ elim (Result-cases removed.0) [
            | inl (u, p) ↦ (
              ground (arith, alone-unmark d _ removed.1),
              ground (arith, alone-unmark d _ removed.1),
            )
            | inr (e, p) ↦ (ground arith, ground arith)
          ]
        ]
      ]

  delete-Serves :
      (d : String) (s : K.State) → Serves (serve_delete d) (handler_delete_cert K d (some s)) s
  unfolding serve_delete delete_looked_up handler_delete_cert delete_found deleted_reply
      with_keystore alone do_call
  delete-Serves d s = elim (Bool-cases (d == "")) [
    | inl empty ↦ (ground arith, ground arith)
    | inr given ↦ elim (Result-cases (K.get_cert_and_key d s)) [
      | inr (e, p) ↦ (ground arith, ground arith)
      | inl (c, p) ↦ elim (Bool-cases c.managed) [
        | inl managed ↦ (ground arith, ground arith)
        | inr unmanaged ↦ elim (Result-cases (K.delete_cert_and_key d s).0) [
          | inl (u, q) ↦ (ground arith, ground arith)
          | inr (e, q) ↦ (ground arith, ground arith)
        ]
      ]
    ]
  ]

  alone-certs :
      (certs : Dict CertAndKey) (t : Tally) (k : Tally → Thread) (s : K.State)
      → alone K (restore_certs certs t k) s
        ≡ alone K (k (import_certs K certs t s).0) (import_certs K certs t s).1
  unfolding alone do_call restore_certs import_certs
  alone-certs [] t k s = refl
  alone-certs ((d, c) ∷ rest) t k s =
      let (r, s') = K.store_cert_and_key d c s in alone-certs rest (count_result r t) k s'

  alone-domain :
      (certs : Dict CertAndKey) (d : String) (t : Tally) (k : Tally → Thread) (s : K.State)
      → alone K (call (is_managed d) (restore_checked certs d t k)) s
        ≡ alone K (k (import_domain K certs d t s).0) (import_domain K certs d t s).1
  unfolding alone do_call restore_checked restore_add import_domain import_add
  alone-domain certs d t k s = elim (Result-cases (K.is_managed_domain d s)) [
    | inr (e, p) ↦ ground arith
    | inl (managed, p) ↦ elim (Bool-cases managed) [
      | inl old ↦ ground arith
      | inr new ↦ elim (List-cases (sans_of (lookup d certs))) [
        | inl empty ↦ ground arith
        | inr (san, sans, given) ↦ ground arith
      ]
    ]
  ]

  alone-domains :
      (certs : Dict CertAndKey) (ds : List String) (t : Tally) (k : Tally → Thread) (s : K.State)
      → alone K (restore_domains certs ds t k) s
        ≡ alone K (k (import_domains K certs ds t s).0) (import_domains K certs ds t s).1
  unfolding restore_domains import_domains
  alone-domains certs [] t k s = refl
  alone-domains certs (d ∷ ds) t k s =
      let (t', s') = import_domain K certs d t s in
      alone-domain certs d t (λ x. restore_domains certs ds x k) s ∙ alone-domains certs ds t' k s'

  restore-Serves :
      (body : Result KeystoreExport) (s : K.State)
      → Serves (serve_restore body) (handler_import_keystore K body (some s)) s
  unfolding serve_restore handler_import_keystore import_all restore_all restored_reply
      with_keystore alone
  restore-Serves (err e) s = (refl, refl)
  restore-Serves (ok dump) s =
      let (c, s1) = import_certs K dump.certificates zero_tally s in
      let first =
        alone-certs dump.certificates zero_tally
          (λ x.
            restore_domains dump.certificates dump.domains zero_tally
              (λ y. done (replied (restored_reply dump x y))))
          s in
      let second =
        alone-domains dump.certificates dump.domains zero_tally
          (λ y. done (replied (restored_reply dump c y))) s1 in
      elim (Bool-cases (dump.version == "1.0")) [
        | inr other ↦ (ground arith, ground arith)
        | inl known ↦ (ground (arith, first ∙ second), ground (arith, first ∙ second))
      ]

  -- A request whose calls of the keystore nobody disturbs is answered as its handler answers it,
  -- and leaves the keystore that the handler leaves.
  pub alone-serve :
      (r : Request) (s : K.State)
      → ((alone K (serve r) s).0 ≡ replied (handle K r (some s)).0)
        × ((handle K r (some s)).1 ≡ some (alone K (serve r) s).1)
  unfolding serve handle
  alone-serve (add q) s = add-Serves q s
  alone-serve (remove d flag) s = remove-Serves d flag s
  alone-serve (delete d) s = delete-Serves d s
  alone-serve (restore body) s = restore-Serves body s
