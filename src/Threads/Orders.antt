-- ===== src/Threads/Orders.antt =====
-- `doAcmeOrders` of worker.go and `RenewCertIfNeeded` of pkg/acme/acme.go, call by call.
use go_acme_store.Common.{
  String, ◌<>◌, Bool, false, not, ◌&&◌, List, [], ◌∷◌, Result, ok, err, wrap, ◌==◌, if◌then◌else◌,
}
use go_acme_store.Crypto.Certificates.{check_if_cert_needs_update}
use go_acme_store.Crypto.Keys.{encode_private_key, decode_private_key}
use go_acme_store.Keystore.Types.{AcmeAccount, CertAndKey}
use go_acme_store.Keystore.Issued.{new_cert_and_key}
use go_acme_store.Acme.Solvers.{Solver, get_solver}
use go_acme_store.Acme.Renewal.{Env, Obtained, failed_with}
use go_acme_store.Threads.{
  account, get, leaf, store_cert, list_managed, sans_of_domain, finished, Thread, done, call,
}

-- The failure that a renewal records in the certificate. The thread goes on with `k`.
unfoldable pub mark_found : String → String → Thread → Result CertAndKey → Thread
unfolding failed_with
mark_found cn text k (err e) = k
mark_found cn text k (ok c) =
    if c.common_name == "" then k else call (store_cert cn (failed_with text c)) (λ _. k)

unfoldable pub mark : String → String → Thread → Thread
unfolding mark_found
mark cn text k = call (get cn) (mark_found cn text k)

module _ (env : Env) where
  -- `retrieveAcmeAccount` from the saved account on.
  unfoldable pub account_of : Result AcmeAccount → Result env.provider.Account
  account_of (err e) = err ("could not retrieve account from keystore: " <> e)
  account_of (ok saved) = elim (decode_private_key env.pki saved.key) [
    | err e ↦ err ("could not decode account provate key from keystore: " <> e)
    | ok key ↦
        let (acme_account, got) = env.provider.get_account ("mailto:" <> saved.email) key in
        elim got [
          | ok _ ↦ ok acme_account
          | err e ↦
              if env.provider.names_missing_account e
              then wrap "could not create new acme account: "
                  (env.provider.new_account acme_account)
              else err ("could not retrieve account from acme provider: " <> e)
        ]
  ]

  unfoldable pub pem_of : env.pki.PrivateKey → String
  pem_of key = elim (encode_private_key env.pki key) [ ok text ↦ text | err e ↦ "" ]

  -- The renewal of a domain. The thread goes on with `k`, given the renewal's result.
  module _ (cn : String) (k : Result (Unit {0}) → Thread) where
    unfoldable pub store_made : Result CertAndKey → Thread
    store_made (err e) = k (err (("could not populate cert for domain " <> (cn <> ": ")) <> e))
    store_made (ok c) =
        call (store_cert cn c)
          (λ r. k (wrap ("could not store certificate and key for domain " <> (cn <> ": ")) r))

    unfoldable pub keep_obtained : env.pki.PrivateKey → Result (List Obtained) → Thread
    unfolding mark pem_of store_made
    keep_obtained key (err e) = mark cn e (k (err ("obtaining certificate: " <> e)))
    keep_obtained key (ok []) = mark cn "<nil>" (k (err "obtaining certificate: <nil>"))
    keep_obtained key (ok (cert ∷ more)) =
        store_made (new_cert_and_key env.pki cert.chain_pem (pem_of key) cert.url)

    unfoldable pub ask_provider :
        List String → Solver → Result env.provider.Account → Result env.pki.PrivateKey → Thread
    unfolding keep_obtained
    ask_provider sans solver (err e) made = k (err e)
    ask_provider sans solver (ok acme_account) (err e) =
        k (err ("generating certificate key: " <> e))
    ask_provider sans solver (ok acme_account) (ok key) =
        keep_obtained key (env.provider.obtain solver acme_account key (cn ∷ sans))

    unfoldable pub ask_solved : List String → Result Solver → Thread
    unfolding account_of ask_provider
    ask_solved sans (err e) = k (err e)
    ask_solved sans (ok solver) =
        call account (λ saved. ask_provider sans solver (account_of saved) env.new_key)

    unfoldable pub renew_existing : List String → Result String → Thread
    unfolding ask_solved
    renew_existing sans (err e) = k (err ("could not retrieve existing cert from keystore: " <> e))
    renew_existing sans (ok pem) =
        if not (check_if_cert_needs_update env.pki env.now pem 21)
        then k (ok tt)
        else ask_solved sans (get_solver env.viper)

    unfoldable pub renew : List String → Thread
    unfolding renew_existing
    renew sans = call (leaf cn) (renew_existing sans)

-- The loop goes on with `k`, whatever the renewal comes to.
abbrev pub after_renewal : String → Thread → Result (Unit {0}) → Thread
after_renewal domain k (ok _) = k
after_renewal domain k (err e) = mark domain e k

-- `err == nil && certAndKey.CommonName != "" && !certAndKey.Managed`
abbrev pub skips : Result CertAndKey → Bool
skips (err e) = false
skips (ok c) = not (c.common_name == "") && not c.managed

-- The body of the loop of `doAcmeOrders`.
unfoldable pub order : Env → String → Thread → Thread
unfolding renew mark
order env domain k = call (get domain) (λ r.
    if skips r then k else call (sans_of_domain domain) (renew env domain (after_renewal domain k)))

module _ (env : String → Env) where
  unfoldable pub orders : List String → Thread
  unfolding order
  orders [] = done finished
  orders (domain ∷ domains) = order (env domain) domain (orders domains)

  unfoldable pub orders_listed : Result (List String) → Thread
  unfolding orders
  orders_listed (err e) = done finished
  orders_listed (ok domains) = orders domains

  unfoldable pub order_all : Thread
  unfolding orders_listed
  order_all = call list_managed orders_listed
