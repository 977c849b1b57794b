-- ===== src/Acme/Renewal.antt =====
-- pkg/acme/acme.go. The ACME client is a parameter: what the provider answers during the renewal.
pub mod Laws
pub mod Split
use go_acme_store.Common.{
  ℕ, String, ◌<>◌, Bool, true, false, not, ◌&&◌, Option, none, some, List, [], ◌∷◌, ◌++◌, Result,
  ok, err, wrap, Exec, Effect, return, fail, reads, wrapped, ◌>>=◌, ◌>>◌, ◌==◌, if◌then◌else◌,
}
use go_acme_store.Host.Viper.{Viper}
use go_acme_store.Crypto.{Pki}
use go_acme_store.Crypto.Certificates.{check_if_cert_needs_update}
use go_acme_store.Crypto.Keys.{encode_private_key, decode_private_key}
use go_acme_store.Keystore.{Keystore}
use go_acme_store.Keystore.Types.{CertAndKey}
use go_acme_store.Keystore.Issued.{new_cert_and_key}
use go_acme_store.Acme.Solvers.{Solver, get_solver}

pub record Obtained : Type 0 where
  pub chain_pem : String
  pub url : String

pub record Provider (p : Pki) : Type 1 where
  pub Account : Type 0
  -- `GetAccount` returns an account beside its error, and `NewAccount` is given that one.
  pub get_account : String → p.PrivateKey → Account × Result (Unit {0})
  pub new_account : Account → Result Account
  -- Does the error name the problem `accountDoesNotExist`?
  pub names_missing_account : String → Bool
  pub obtain : Solver → Account → p.PrivateKey → List String → Result (List Obtained)

-- What one renewal meets: the configuration, the time, the provider, and the key that
-- `ecdsa.GenerateKey` makes for the certificate.
pub record Env : Type 1 where
  pub pki : Pki
  pub viper : Viper
  pub now : ℕ
  pub provider : Provider pki
  pub new_key : Result pki.PrivateKey

-- The status that a failed renewal writes.
unfoldable pub failed_with : String → CertAndKey → CertAndKey
failed_with message cert = record cert { status = "failed"; error = message }

module _ (K : Keystore) where
  -- `existing, err := ks.GetCertAndKey(cn); if err == nil && existing.CommonName != "" { … }`. The
  -- error of the store is logged and dropped.
  unfoldable pub mark_failed : String → String → K.State → K.State
  unfolding failed_with
  mark_failed cn message s = elim (K.get_cert_and_key cn s) [
    | err e ↦ s
    | ok cert ↦
        if cert.common_name == ""
        then s
        else (K.store_cert_and_key cn (failed_with message cert) s).1
  ]

  module _ (env : Env) where
    unfoldable pub retrieve_acme_account : K.State → Result env.provider.Account
    retrieve_acme_account s = elim (K.get_acme_account s) [
      | err e ↦ err ("could not retrieve account from keystore: " <> e)
      | ok saved ↦ elim (decode_private_key env.pki saved.key) [
        | err e ↦ err ("could not decode account provate key from keystore: " <> e)
        | ok key ↦
            let (account, got) = env.provider.get_account ("mailto:" <> saved.email) key in
            elim got [
              | ok _ ↦ ok account
              | err e ↦
                  if env.provider.names_missing_account e
                  then wrap "could not create new acme account: " (env.provider.new_account account)
                  else err ("could not retrieve account from acme provider: " <> e)
            ]
      ]
    ]

    -- The private key's PEM; its error is dropped.
    unfoldable pub key_pem : env.pki.PrivateKey → String
    key_pem key = elim (encode_private_key env.pki key) [ ok text ↦ text | err e ↦ "" ]

    -- The branches after `ObtainCertificateForSANs`.
    unfoldable pub store_obtained :
        String → env.pki.PrivateKey → Result (List Obtained) → Effect K.State
    unfolding key_pem mark_failed
    store_obtained cn key (err e) s = (err ("obtaining certificate: " <> e), mark_failed cn e s)
    store_obtained cn key (ok []) s = (err "obtaining certificate: <nil>", mark_failed cn "<nil>" s)
    store_obtained cn key (ok (cert ∷ _)) s =
        (do
          data' ←
              wrapped ("could not populate cert for domain " <> (cn <> ": "))
                (reads (λ _. new_cert_and_key env.pki cert.chain_pem (key_pem key) cert.url))
          wrapped ("could not store certificate and key for domain " <> (cn <> ": "))
              (K.store_cert_and_key cn data'))
          s

    unfoldable pub renew_cert_if_needed : String → List String → Effect K.State
    renew_cert_if_needed cn sans = do
      existing ←
          wrapped "could not retrieve existing cert from keystore: " (reads (K.get_leaf_cert cn))
      if not (check_if_cert_needs_update env.pki env.now existing 21) then return tt else do
        solver ← reads (λ _. get_solver env.viper)
        account ← reads retrieve_acme_account
        key ← wrapped "generating certificate key: " (reads (λ _. env.new_key))
        store_obtained cn key (env.provider.obtain solver account key (cn ∷ sans))
