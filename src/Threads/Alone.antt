-- ===== src/Threads/Alone.antt =====
-- A thread that nobody disturbs does what its handler, or a run of the daemon, does.
pub mod Handlers
use go_acme_store.Common.{
  String, ◌≡◌, refl, ◌∙◌, true, false, some, none, Option, List, [], ◌∷◌, Result, ok, err, arith,
  Result-cases, Bool-cases, inl, inr, ◌==◌, if◌then◌else◌, not, ap, ◌&&◌,
}
use go_acme_store.Common.Dict.{Dict, lookup}
use go_acme_store.Crypto.Certificates.{check_if_cert_needs_update}
use go_acme_store.Keystore.{Keystore}
use go_acme_store.Keystore.Types.{CertAndKey}
use go_acme_store.Keystore.Issued.{new_cert_and_key}
use go_acme_store.Acme.Solvers.{get_solver}
use go_acme_store.Acme.Renewal.{
  Env, Obtained, failed_with, mark_failed, key_pem, retrieve_acme_account, store_obtained,
  renew_cert_if_needed,
}
use go_acme_store.Worker.{is_skipped, sans_for, order_domain, order_domains, do_acme_orders}
use go_acme_store.Threads.{finished, Outcome, Thread, done, call, do_call, alone}
use go_acme_store.Threads.Orders.{
  mark, mark_found, account_of, pem_of, keep_obtained, store_made, renew, renew_existing,
  ask_solved, ask_provider, orders_listed, after_renewal, order, orders, order_all,
}

module _ (K : Keystore) where
  alone-mark :
      (cn e : String) (k : Thread) (s : K.State)
      → alone K (mark cn e k) s ≡ alone K k (mark_failed K cn e s)
  unfolding alone do_call mark mark_found mark_failed failed_with
  alone-mark cn e k s = elim (Result-cases (K.get_cert_and_key cn s)) [
    | inr (m, p) ↦ ground arith
    | inl (c, p) ↦ elim (Bool-cases (c.common_name == "")) [
      | inl nameless ↦ ground arith
      | inr named ↦ ground arith
    ]
  ]

  module _ (env : Env) where
    account_of_lem :
        (s : K.State) → account_of env (K.get_acme_account s) ≡ retrieve_acme_account K env s
    unfolding account_of retrieve_acme_account
    account_of_lem s = elim (Result-cases (K.get_acme_account s)) [
      | inr (e, p) ↦ ground arith
      | inl (a, p) ↦ ground arith
    ]

    pem_lem : (key : env.pki.PrivateKey) → pem_of env key ≡ key_pem K env key
    unfolding pem_of key_pem
    pem_lem key = refl

    module _ (cn : String) (k : Result (Unit {0}) → Thread) (s : K.State) where
      abbrev Follows : Thread → Result (Unit {0}) × K.State → Type 0
      Follows p r = alone K p s ≡ alone K (k r.0) r.1

      alone-keep :
          (key : env.pki.PrivateKey) (r : Result (List Obtained))
          → Follows (keep_obtained env cn k key r) (store_obtained K env cn key r s)
      unfolding keep_obtained store_made store_obtained alone do_call
      alone-keep key (err e) = alone-mark cn e _ s
      alone-keep key (ok []) = alone-mark cn "<nil>" _ s
      alone-keep key (ok (cert ∷ more)) =
          elim (Result-cases
            (new_cert_and_key env.pki cert.chain_pem (key_pem K env key) cert.url)) [
              | inr (e, p) ↦ ground (arith, pem_lem key)
              | inl (c, p) ↦ elim (Result-cases (K.store_cert_and_key cn c s).0) [
                | inl (u, q) ↦ ground (arith, pem_lem key)
                | inr (e, q) ↦ ground (arith, pem_lem key)
              ]
            ]

      alone-renew :
          (sans : List String)
          → Follows (renew env cn k sans) (renew_cert_if_needed K env cn sans s)
      unfolding renew renew_existing ask_solved ask_provider renew_cert_if_needed alone do_call
      alone-renew sans = elim (Result-cases (K.get_leaf_cert cn s)) [
        | inr (e, p) ↦ ground arith
        | inl (pem, p) ↦ elim (Bool-cases (check_if_cert_needs_update env.pki env.now pem 21)) [
          | inr valid ↦ ground arith
          | inl needed ↦ elim (Result-cases (get_solver env.viper)) [
            | inr (e, q) ↦ ground arith
            | inl (solver, q) ↦ elim (Result-cases (retrieve_acme_account K env s)) [
              | inr (e, r) ↦ ground (arith, account_of_lem s)
              | inl (account, r) ↦ elim (Result-cases env.new_key) [
                | inr (e, t) ↦ ground (arith, account_of_lem s)
                | inl (key, t) ↦ ground (
                  arith,
                  account_of_lem s,
                  alone-keep key (env.provider.obtain solver account key (cn ∷ sans)),
                )
              ]
            ]
          ]
        ]
      ]

  module _ (env : String → Env) where
    alone-order :
        (d : String) (k : Thread) (s : K.State)
        → alone K (order (env d) d k) s ≡ alone K k (order_domain K env d s)
    unfolding order order_domain is_skipped alone do_call
    alone-order d k s =
        let renewal : Result (Unit {0}) × K.State =
          renew_cert_if_needed K (env d) d (sans_for K d s) s in
        let renewed = alone-renew (env d) d (after_renewal d k) s (sans_for K d s) in
        elim (Result-cases (K.get_cert_and_key d s)) [
          | inr (e, p) ↦ elim (Result-cases renewal.0) [
            | inl (u, q) ↦ ground (arith, renewed)
            | inr (e', q) ↦ ground (arith, renewed, alone-mark d e' k renewal.1)
          ]
          | inl (c, p) ↦ elim (Bool-cases (not (c.common_name == "") && not c.managed)) [
            | inl skipped ↦ ground arith
            | inr taken ↦ elim (Result-cases renewal.0) [
              | inl (u, q) ↦ ground (arith, renewed)
              | inr (e', q) ↦ ground (arith, renewed, alone-mark d e' k renewal.1)
            ]
          ]
        ]

    alone-orders :
        (ds : List String) (s : K.State)
        → alone K (orders env ds) s ≡ (finished, order_domains K env ds s)
    unfolding orders order_domains alone
    alone-orders [] s = refl
    alone-orders (d ∷ ds) s =
        alone-order d (orders env ds) s ∙ alone-orders ds (order_domain K env d s)

    -- A run of the daemon whose calls of the keystore nobody disturbs ends, and leaves the
    -- keystore that doAcmeOrders leaves.
    pub alone-order_all :
        (s : K.State)
        → ((alone K (order_all env) s).0 ≡ finished)
          × (do_acme_orders K env (some s) ≡ some (alone K (order_all env) s).1)
    unfolding order_all orders_listed do_acme_orders alone do_call
    alone-order_all s = elim (Result-cases (K.get_managed_domains s)) [
      | inr (e, p) ↦ (ground arith, ground arith)
      | inl (ds, p) ↦ (ground (arith, alone-orders ds s), ground (arith, alone-orders ds s))
    ]
