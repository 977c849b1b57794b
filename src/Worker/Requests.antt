-- ===== src/Worker/Requests.antt =====
-- Which names `doAcmeOrders` requests from the provider, by back end.
use go_acme_store.Common.{
  String, ◌≡◌, refl, ap, none, List, [], ◌∷◌, Result, ok, err, arith, Result-cases, Bool-cases, inl,
  inr, if◌then◌else◌,
}
use go_acme_store.Crypto.Certificates.{check_if_cert_needs_update}
use go_acme_store.Keystore.{Keystore}
use go_acme_store.Keystore.Types.{ManagedDomain}
use go_acme_store.Keystore.VaultHost.{VaultHost, IsSound}
use go_acme_store.Keystore.Vault.{
  Mount, get_managed_domains_path, load_managed_domains, add_managed_domain_with_sans, vault,
}
use go_acme_store.Keystore.Vault.Reads.{IsPlain}
use go_acme_store.Keystore.Vault.Registry.{find-add}
use go_acme_store.Acme.Solvers.{Solver, get_solver}
use go_acme_store.Acme.Renewal.{
  Env, Obtained, retrieve_acme_account, store_obtained, mark_failed, renew_cert_if_needed,
}
use go_acme_store.Worker.{is_skipped, sans_for, order_domain}

abbrev pub Obtain : Env → Type 0
Obtain env =
    Solver → env.provider.Account → env.pki.PrivateKey → List String → Result (List Obtained)

-- The same renewal with a provider that answers requests by `f`.
abbrev pub with_obtain : (env : Env) → Obtain env → Env
with_obtain env f = record env { provider = record (env.provider) { obtain = f } }

-- `order_domain` from the result of the renewal on.
abbrev finish_order : (K : Keystore) → String → K.State → Result (Unit {0}) × K.State → K.State
finish_order K d s x =
    if is_skipped K (K.get_cert_and_key d s)
    then s
    else (elim x.0 [ ok _ ↦ x.1 | err e ↦ mark_failed K d e x.1 ])

module _ (K : Keystore) (env : Env) (f : Obtain env) (d : String) (s : K.State) where
  retrieve_same : retrieve_acme_account K (with_obtain env f) s ≡ retrieve_acme_account K env s
  unfolding retrieve_acme_account
  retrieve_same = refl

  store_same :
      (key : env.pki.PrivateKey) (r : Result (List Obtained))
      → store_obtained K (with_obtain env f) d key r s ≡ store_obtained K env d key r s
  unfolding store_obtained
  store_same key (err e) = refl
  store_same key (ok []) = refl
  store_same key (ok (cert ∷ more)) = refl

  renew_asks :
      ((solver : Solver) (account : env.provider.Account) (key : env.pki.PrivateKey)
        → f solver account key (d ∷ []) ≡ env.provider.obtain solver account key (d ∷ []))
      → renew_cert_if_needed K env d [] s ≡ renew_cert_if_needed K (with_obtain env f) d [] s
  unfolding renew_cert_if_needed
  renew_asks agree = elim (Result-cases (K.get_leaf_cert d s)) [
    | inr (e, p) ↦ ground arith
    | inl (pem, p) ↦ elim (Bool-cases (check_if_cert_needs_update env.pki env.now pem 21)) [
      | inr fresh ↦ ground arith
      | inl needed ↦ elim (Result-cases (get_solver env.viper)) [
        | inr (e, q) ↦ ground arith
        | inl (solver, q) ↦ elim (Result-cases (retrieve_acme_account K env s)) [
          | inr (e, r) ↦ ground (arith, retrieve_same)
          | inl (account, r) ↦ elim (Result-cases env.new_key) [
            | inr (e, t) ↦ ground (arith, retrieve_same)
            | inl (key, t) ↦ ground (
              arith,
              retrieve_same,
              agree solver account key,
              store_same key (f solver account key (d ∷ [])),
            )
          ]
        ]
      ]
    ]
  ]

  -- Over a back end other than Vault, the daemon requests a certificate for the domain alone,
  -- whatever SANs the domain was registered with: a provider that answers this one request alike
  -- has the same effect.
  pub order_asks_domain_alone :
      K.vault_lookup ≡ none
      → ((solver : Solver) (account : env.provider.Account) (key : env.pki.PrivateKey)
          → f solver account key (d ∷ []) ≡ env.provider.obtain solver account key (d ∷ []))
      → order_domain K (λ _. env) d s ≡ order_domain K (λ _. with_obtain env f) d s
  unfolding order_domain
  order_asks_domain_alone no_vault agree =
      let alone : sans_for K d s ≡ [] = (unfold sans_for in ground arith) in
      let same : renew_cert_if_needed K env d (sans_for K d s) s
          ≡ renew_cert_if_needed K (with_obtain env f) d (sans_for K d s) s =
        rw alone (renew_asks agree) in
      ap (finish_order K d s) same

-- Over a Vault server that keeps its promises, with clean paths, where the list of managed
-- domains can be read: the daemon requests the SANs that the domain was added with.
pub sans_for-add :
    (h : VaultHost) (sound : IsSound h) (m : Mount)
    (managed_clean : h.IsClean (get_managed_domains_path m)) (d : String) (sans : List String)
    (s : h.Server) (md : List ManagedDomain)
    → IsPlain h sound m managed_clean d
    → load_managed_domains h m s ≡ ok md
    → (add_managed_domain_with_sans h m d sans s).0 ≡ ok tt
    → sans_for (vault h m) d (add_managed_domain_with_sans h m d sans s).1 ≡ sans
unfolding sans_for
sans_for-add h sound m managed_clean d sans s md plain loaded added =
    ground (arith, find-add h sound m managed_clean d sans s md plain loaded added)
