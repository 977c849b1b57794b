-- ===== src/Worker/Orders.antt =====
-- `doAcmeOrders` over a keystore that keeps its contract: what it may change, and what becomes of a
-- domain whose renewal fails.

use go_acme_store.Common.{
  String, String-discrete, ◌≡◌, ◌≢◌, ◌⊎◌, refl, ap, ◌∙◌, true, false, some, List, [], ◌∷◌, Result,
  ok, err, arith, Result-cases, Bool-cases, inl, inr, contains, All,
}
use go_acme_store.Keystore.{Keystore}
use go_acme_store.Keystore.Laws.{IsLawful}
use go_acme_store.Keystore.Types.{CertAndKey}
use go_acme_store.Acme.Renewal.{Env, mark_failed, renew_cert_if_needed}
use go_acme_store.Acme.Renewal.Laws.{
  StoresOnly, mark_failed-StoresOnly, renew-StoresOnly, get_StoresOnly, managed_StoresOnly,
}
use go_acme_store.Worker.{is_skipped, sans_for, order_domain, order_domains, do_acme_orders}

module _ (K : Keystore) {Accepts : String → Type 0} (L : IsLawful K Accepts)
    (env : String → Env) where
  abbrev renewal : String → K.State → Result (Unit {0}) × K.State
  renewal d s = renew_cert_if_needed K (env d) d (sans_for K d s) s

  module _ (d : String) (hd : Accepts d) (s : K.State) where
    abbrev renewed : Result (Unit {0}) × K.State
    renewed = renewal d s

    -- The domain is skipped, renewed, or marked as failed after a renewal that failed.
    pub order-cases :
        (order_domain K env d s ≡ s)
        ⊎ (order_domain K env d s ≡ renewed.1)
        ⊎ ((e : String) × (renewed.0 ≡ err e)
            × (order_domain K env d s ≡ mark_failed K d e renewed.1))
    unfolding order_domain
    order-cases = elim (Bool-cases (is_skipped K (K.get_cert_and_key d s))) [
      | inl skipped ↦ inl (ground arith)
      | inr taken ↦ elim (Result-cases renewed.0) [
        | inl (u, p) ↦ inr (inl (ground arith))
        | inr (e, p) ↦ inr (inr (e, p, ground arith))
      ]
    ]

    once : StoresOnly K d s renewed.1
    once = renew-StoresOnly K d s (env d) (sans_for K d s)

    order_get :
        (a : String)
        → Accepts a
        → a ≢ d
        → K.get_cert_and_key a (order_domain K env d s) ≡ K.get_cert_and_key a s
    order_get a ha ne = elim order-cases [
      | inl p ↦ rw p
      | inr (inl p) ↦ rw p (get_StoresOnly K d s L a renewed.1 ha hd ne once)
      | inr (inr (e, q, p)) ↦ rw p (
          get_StoresOnly K d renewed.1 L a _ ha hd ne (mark_failed-StoresOnly K d renewed.1 e)
          ∙ get_StoresOnly K d s L a renewed.1 ha hd ne once)
    ]

    order_managed : K.get_managed_domains (order_domain K env d s) ≡ K.get_managed_domains s
    order_managed = elim order-cases [
      | inl p ↦ rw p
      | inr (inl p) ↦ rw p (managed_StoresOnly K d s L renewed.1 hd once)
      | inr (inr (e, q, p)) ↦ rw p (
          managed_StoresOnly K d renewed.1 L _ hd (mark_failed-StoresOnly K d renewed.1 e)
          ∙ managed_StoresOnly K d s L renewed.1 hd once)
    ]

    order_unmanaged :
        (a : String) (c : CertAndKey)
        → Accepts a
        → K.get_cert_and_key a s ≡ ok c
        → is_skipped K (ok c) ≡ true
        → K.get_cert_and_key a (order_domain K env d s) ≡ ok c
    order_unmanaged a c ha stored skipped = elim (String-discrete a d) [
      | yes e ↦ (unfold order_domain in ground (arith, ap (λ x. K.get_cert_and_key x s) e))
      | no ne ↦ order_get a ha ne ∙ stored
    ]

  orders_get :
      (a : String) (ds : List String) (s : K.State)
      → Accepts a
      → All Accepts ds
      → contains ds a ≡ false
      → K.get_cert_and_key a (order_domains K env ds s) ≡ K.get_cert_and_key a s
  unfolding order_domains
  orders_get a [] s ha hs out = refl
  orders_get a (d ∷ ds) s ha (hd, hs) out =
      orders_get a ds (order_domain K env d s) ha hs (ground arith)
      ∙ order_get d hd s a ha (λ e. ground arith)

  orders_managed :
      (ds : List String) (s : K.State)
      → All Accepts ds
      → K.get_managed_domains (order_domains K env ds s) ≡ K.get_managed_domains s
  unfolding order_domains
  orders_managed [] s hs = refl
  orders_managed (d ∷ ds) s (hd, hs) =
      orders_managed ds (order_domain K env d s) hs ∙ order_managed d hd s

  orders_unmanaged :
      (a : String) (c : CertAndKey) (ds : List String) (s : K.State)
      → Accepts a
      → All Accepts ds
      → is_skipped K (ok c) ≡ true
      → K.get_cert_and_key a s ≡ ok c
      → K.get_cert_and_key a (order_domains K env ds s) ≡ ok c
  unfolding order_domains
  orders_unmanaged a c [] s ha hs skipped stored = stored
  orders_unmanaged a c (d ∷ ds) s ha (hd, hs) skipped stored =
      orders_unmanaged a c ds (order_domain K env d s) ha hs skipped
        (order_unmanaged d hd s a c ha stored skipped)

  module _ (s : K.State) (ds : List String) (listed : K.get_managed_domains s ≡ ok ds)
      (named : All Accepts ds) where
    orders_lem : do_acme_orders K env (some s) ≡ some (order_domains K env ds s)
    unfolding do_acme_orders
    orders_lem = ground arith

    -- Over a keystore that keeps its contract, where the list of managed domains can be read and
    -- its names are accepted: a run of the daemon keeps the list, leaves the certificate of every
    -- other domain alone, and leaves a certificate that has a common name and is marked as
    -- unmanaged alone, its domain listed or not.
    pub do_acme_orders_frame :
        (a : String) (c : CertAndKey)
        → Accepts a
        → K.get_cert_and_key a s ≡ ok c
        → (contains ds a ≡ false) ⊎ (is_skipped K (ok c) ≡ true)
        → (t : K.State) × (do_acme_orders K env (some s) ≡ some t)
          × (K.get_managed_domains t ≡ ok ds)
          × (K.get_cert_and_key a t ≡ ok c)
    do_acme_orders_frame a c ha stored (inl out) = (
      order_domains K env ds s,
      orders_lem,
      orders_managed ds s named ∙ listed,
      orders_get a ds s ha named out ∙ stored,
    )
    do_acme_orders_frame a c ha stored (inr skipped) = (
      order_domains K env ds s,
      orders_lem,
      orders_managed ds s named ∙ listed,
      orders_unmanaged a c ds s ha named skipped stored,
    )
