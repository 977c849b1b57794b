-- ===== src/Worker.antt =====
-- cmd/acme-store/worker.go and keystore.go: the daemon that renews certificates. The global `ks` is
-- an `Option`, nil before the keystore is there.
pub mod Orders
pub mod Trigger
pub mod Requests
use go_acme_store.Common.{
  ℕ, String, ◌<>◌, Bool, true, false, not, ◌&&◌, Option, none, some, List, [], ◌∷◌, Result, ok, err,
  ◌==◌, if◌then◌else◌, length,
}
use go_acme_store.Keystore.{Keystore}
use go_acme_store.Keystore.Types.{CertAndKey, ManagedDomain}
use go_acme_store.Acme.Renewal.{Env, mark_failed, renew_cert_if_needed}

unfoldable pub ensure_keystore {ℓ} : {S : Type ℓ} → Option S → Result S
ensure_keystore none = err "keystore not initialized - keystore may be unavailable"
ensure_keystore (some s) = ok s

pub data LogLine : Type 0 where
  infof : String → LogLine
  warnf : String → LogLine

module _ (K : Keystore) where
  -- `err == nil && certAndKey.CommonName != "" && !certAndKey.Managed`
  unfoldable pub is_skipped : Result CertAndKey → Bool
  is_skipped (err e) = false
  is_skipped (ok cert) = not (cert.common_name == "") && not cert.managed

  -- The SANs are looked up in a Vault keystore only.
  unfoldable pub sans_for : String → K.State → List String
  sans_for domain s = elim K.vault_lookup [
    | none ↦ []
    | some lookup ↦ elim (lookup domain s) [ ok d ↦ d.sans | err e ↦ [] ]
  ]

  module _ (env : String → Env) where
    -- The body of the loop of `doAcmeOrders`.
    unfoldable pub order_domain : String → K.State → K.State
    unfolding sans_for
    order_domain domain s =
        if is_skipped (K.get_cert_and_key domain s)
        then s
        else (let (r, s') = renew_cert_if_needed K (env domain) domain (sans_for domain s) s in
            elim r [ ok _ ↦ s' | err e ↦ mark_failed K domain e s' ])

    unfoldable pub order_domains : List String → K.State → K.State
    order_domains [] s = s
    order_domains (domain ∷ domains) s = order_domains domains (order_domain domain s)

    unfoldable pub do_acme_orders : Option K.State → Option K.State
    unfolding ensure_keystore
    do_acme_orders ks = elim (ensure_keystore ks) [
      | err e ↦ ks
      | ok s ↦ elim (K.get_managed_domains s) [
        | err e ↦ ks
        | ok domains ↦ some (order_domains domains s)
      ]
    ]

  -- What `loadDomainsFromVault` logs: it only reads. `show_count` and `show_names` print a number
  -- and a list as `fmt` does.
  module _ (show_count : ℕ → String) (show_names : List String → String) where
    unfoldable pub load_domains_from_vault : Option K.State → List LogLine
    unfolding ensure_keystore
    load_domains_from_vault ks = elim (ensure_keystore ks) [
      | err e ↦ warnf ("cannot load domains: " <> e) ∷ []
      | ok s ↦ elim (K.get_managed_domains s) [
        | err e ↦
            warnf ("failed to load managed domains from vault: " <> e)
            ∷ warnf "if this is the first run, add domains via the API: POST /api/domains"
            ∷ []
        | ok domains ↦
            infof (
              "loaded "
              <> (show_count (length domains)
                  <> (" managed domain(s) from vault: " <> show_names domains)))
            ∷ []
      ]
    ]
