-- ===== src/Acme/Renewal/Split.antt =====
-- A renewal in two parts, between which others may change the keystore: `RenewCertIfNeeded` holds no
-- lock while the provider works. The first part reads the keystore and asks the provider, the second
-- writes.
use mathlib.Core.Path.{subst}
use go_acme_store.Common.{
  String, ◌<>◌, ◌≡◌, refl, sym, not, List, ◌∷◌, Result, ok, err, Effect, return, fail, arith,
  if◌then◌else◌, Result-cases, Bool-cases, inl, inr,
}
use go_acme_store.Crypto.Certificates.{check_if_cert_needs_update}
use go_acme_store.Keystore.{Keystore}
use go_acme_store.Acme.Solvers.{Solver, get_solver}
use go_acme_store.Acme.Renewal.{
  Env, Obtained, retrieve_acme_account, store_obtained, renew_cert_if_needed,
}

-- What the first part comes to: an error, nothing to do, or an answer of the provider for a new key.
pub data Asked (env : Env) : Type 0 where
  failed : String → Asked env
  fresh : Asked env
  answered : env.pki.PrivateKey → Result (List Obtained) → Asked env

module _ (K : Keystore) (env : Env) (cn : String) where
  unfoldable pub renew_ask : List String → K.State → Asked env
  renew_ask sans s = elim (K.get_leaf_cert cn s) [
    | err e ↦ failed ("could not retrieve existing cert from keystore: " <> e)
    | ok existing ↦
        if not (check_if_cert_needs_update env.pki env.now existing 21)
        then fresh
        else elim (get_solver env.viper) [
          | err e ↦ failed e
          | ok solver ↦ elim (retrieve_acme_account K env s) [
            | err e ↦ failed e
            | ok account ↦ elim env.new_key [
              | err e ↦ failed ("generating certificate key: " <> e)
              | ok key ↦ answered key (env.provider.obtain solver account key (cn ∷ sans))
            ]
          ]
        ]
  ]

  unfoldable pub renew_store : Asked env → Effect K.State
  renew_store (failed e) = fail e
  renew_store fresh = return tt
  renew_store (answered key r) = store_obtained K env cn key r

  -- With nothing in between, the two parts are the renewal.
  pub renew_split :
      (sans : List String) (s : K.State)
      → renew_cert_if_needed K env cn sans s ≡ renew_store (renew_ask sans s) s
  unfolding renew_cert_if_needed renew_ask renew_store
  renew_split sans s = elim (Result-cases (K.get_leaf_cert cn s)) [
    | inr (e, p) ↦ ground arith
    | inl (pem, p) ↦ elim (Bool-cases (check_if_cert_needs_update env.pki env.now pem 21)) [
      | inr valid ↦ ground arith
      | inl needed ↦ elim (Result-cases (get_solver env.viper)) [
        | inr (e, q) ↦ ground arith
        | inl (solver, q) ↦ elim (Result-cases (retrieve_acme_account K env s)) [
          | inr (e, r) ↦ ground arith
          | inl (account, r) ↦ elim (Result-cases env.new_key) [
            | inr (e, t) ↦ ground arith
            | inl (key, t) ↦ ground arith
          ]
        ]
      ]
    ]
  ]

  -- An answer that is there is the provider's, to a request for this domain with this key.
  abbrev pub IsAnswer : Asked env → Type 0
  IsAnswer (failed e) = Unit
  IsAnswer fresh = Unit
  IsAnswer (answered key r) =
      (solver : Solver) × (account : env.provider.Account) × (names : List String)
      × (env.provider.obtain solver account key (cn ∷ names) ≡ r)

  pub renew_ask-IsAnswer : (sans : List String) (s : K.State) → IsAnswer (renew_ask sans s)
  unfolding renew_ask
  renew_ask-IsAnswer sans s = elim (Result-cases (K.get_leaf_cert cn s)) [
    | inr (e, p) ↦
        without_answer (failed ("could not retrieve existing cert from keystore: " <> e))
          (ground arith) tt
    | inl (pem, p) ↦ elim (Bool-cases (check_if_cert_needs_update env.pki env.now pem 21)) [
      | inr valid ↦ without_answer fresh (ground arith) tt
      | inl needed ↦ elim (Result-cases (get_solver env.viper)) [
        | inr (e, q) ↦ without_answer (failed e) (ground arith) tt
        | inl (solver, q) ↦ elim (Result-cases (retrieve_acme_account K env s)) [
          | inr (e, r) ↦ without_answer (failed e) (ground arith) tt
          | inl (account, r) ↦ elim (Result-cases env.new_key) [
            | inr (e, t) ↦
                without_answer (failed ("generating certificate key: " <> e)) (ground arith) tt
            | inl (key, t) ↦
                without_answer (answered key (env.provider.obtain solver account key (cn ∷ sans)))
                  (ground arith) (solver, account, sans, refl)
          ]
        ]
      ]
    ]
  ]
    where
      without_answer :
          (a : Asked env) → renew_ask sans s ≡ a → IsAnswer a → IsAnswer (renew_ask sans s)
      without_answer a e h = subst (λ x. IsAnswer x) (sym e) h
