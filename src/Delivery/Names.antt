-- ===== src/Delivery/Names.antt =====
-- What the fetcher's requests return, where the handlers answer them.
use go_acme_store.Common.{
  String, String-discrete, ◌≡◌, ◌≢◌, ◌⊎◌, refl, ap, ◌∙◌, true, Option, some, List, [], ◌∷◌, ◌++◌,
  map, Result, ok, err, arith, Result-cases, inl, inr, contains, All, ◌==◌, if◌then◌else◌, length,
}
use go_acme_store.Common.Dict.{Dict, lookup, insert, lookup-insert}
use go_acme_store.Keystore.{Keystore}
use go_acme_store.Keystore.Types.{CertAndKey}
use go_acme_store.Api.Response.{CertInfo, with_keystore}
use go_acme_store.Api.Certs.{
  cert_info, listed_cert, cert_infos, handler_certs, handler_get_private_key,
}
use go_acme_store.Api.Domains.{handler_get_domains}
use go_acme_store.Fetcher.Client.{
  ApiCertInfo, certs_by_name, get_managed_domains, get_all_certs, get_private_key,
}
use go_acme_store.Delivery.{Get, IsRouter, api_info, respond, server, Wire, IsReadBack}

module _ (K : Keystore) (s : K.State) (a : String) (c : CertAndKey)
    (stored : K.get_cert_and_key a s ≡ ok c) (named : c.common_name ≡ a) where
  abbrev pub info : CertAndKey → ApiCertInfo
  info c = api_info (cert_info c)

  -- No other domain has a certificate of this name.
  abbrev pub Unnamed : String → Type 0
  Unnamed x = (x ≡ a) ⊎ ((c' : CertAndKey) → K.get_cert_and_key x s ≡ ok c' → c'.common_name ≢ a)

  abbrev fold : List String → Dict ApiCertInfo → Dict ApiCertInfo
  fold ds m = certs_by_name (map api_info (cert_infos K s ds)) m

  abbrev step : Result CertAndKey → Dict ApiCertInfo → Dict ApiCertInfo
  step (err e) m = m
  step (ok c') m = if c'.common_name == "" then m else insert c'.common_name (info c') m

  listed-step :
      (r : Result CertAndKey) (rest : List CertInfo) (m : Dict ApiCertInfo)
      → certs_by_name (map api_info (listed_cert K r ++ rest)) m
        ≡ certs_by_name (map api_info rest) (step r m)
  unfolding certs_by_name listed_cert cert_info api_info
  listed-step (err e) rest m = refl
  listed-step (ok c') rest m = elim (String-discrete c'.common_name "") [
    | yes empty ↦ ground arith
    | no given ↦ ground arith
  ]

  fold-step :
      (x : String) (ds : List String) (m : Dict ApiCertInfo)
      → fold (x ∷ ds) m ≡ fold ds (step (K.get_cert_and_key x s) m)
  unfolding cert_infos
  fold-step x ds m = listed-step (K.get_cert_and_key x s) (cert_infos K s ds) m

  module _ (given : a ≢ "") where
    step_self : (m : Dict ApiCertInfo) → lookup a (step (K.get_cert_and_key a s) m) ≡ some (info c)
    step_self m = ground (arith, lookup-insert a c.common_name (info c) m)

    step_other :
        (x : String) (m : Dict ApiCertInfo)
        → Unnamed x
        → x ≢ a
        → lookup a (step (K.get_cert_and_key x s) m) ≡ lookup a m
    step_other x m unnamed ne = elim (Result-cases (K.get_cert_and_key x s)) [
      | inr (e, p) ↦ ground arith
      | inl (c', p) ↦
          let other : c'.common_name ≢ a = elim unnamed [
            | inl e ↦ absurd (ne e)
            | inr f ↦ f c' p
          ] in
          elim (String-discrete c'.common_name "") [
            | yes empty ↦ ground arith
            | no full ↦ ground (arith, lookup-insert a c'.common_name (info c') m)
          ]
    ]

    stays :
        (ds : List String) (m : Dict ApiCertInfo)
        → All Unnamed ds
        → lookup a m ≡ some (info c)
        → lookup a (fold ds m) ≡ some (info c)
    unfolding certs_by_name cert_infos
    stays [] m hs there = there
    stays (x ∷ ds) m (hx, hs) there = rw (fold-step x ds m) (
        stays ds (step (K.get_cert_and_key x s) m) hs (elim (String-discrete x a) [
          | yes same ↦ ap (λ y. lookup a (step (K.get_cert_and_key y s) m)) same ∙ step_self m
          | no ne ↦ step_other x m hx ne ∙ there
        ]))

    reaches :
        (ds : List String) (m : Dict ApiCertInfo)
        → All Unnamed ds
        → contains ds a ≡ true
        → lookup a (fold ds m) ≡ some (info c)
    reaches [] m hs there = absurd (ground arith)
    reaches (x ∷ ds) m (hx, hs) there =
        ap (lookup a) (fold-step x ds m) ∙ (elim (String-discrete x a) [
          | yes same ↦
              stays ds (step (K.get_cert_and_key x s) m) hs
                (ap (λ y. lookup a (step (K.get_cert_and_key y s) m)) same ∙ step_self m)
          | no ne ↦ reaches ds (step (K.get_cert_and_key x s) m) hs (ground arith)
        ])

    module _ (route : String → Option Get) (api_url : String) (routed : IsRouter api_url a route)
        (w : Wire) (reads : IsReadBack w) where
      pub domains_served :
          (l : List String)
          → K.get_managed_domains s ≡ ok l
          → get_managed_domains (server K (some s) route w) api_url ≡ ok l
      unfolding get_managed_domains respond handler_get_domains with_keystore
      domains_served l listed = ground (arith, routed.to_domains, reads.domains_back l (length l))

      pub certs_served :
          (ds : List String)
          → K.get_all_domains s ≡ ok ds
          → All Unnamed ds
          → contains ds a ≡ true
          → (m : Dict ApiCertInfo) × (get_all_certs (server K (some s) route w) api_url ≡ ok m)
            × (lookup a m ≡ some (info c))
      unfolding get_all_certs respond handler_certs with_keystore
      certs_served ds all hs there = (
        fold ds [],
        ground (arith, routed.to_certs, reads.certs_back (cert_infos K s ds)),
        reaches ds [] hs there,
      )

      pub key_served : get_private_key (server K (some s) route w) api_url a ≡ ok c.private_key_pem
      unfolding get_private_key respond handler_get_private_key with_keystore
      key_served = ground (arith, routed.to_key, reads.key_back a c.private_key_pem)
