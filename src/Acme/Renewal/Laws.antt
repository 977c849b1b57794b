-- ===== src/Acme/Renewal/Laws.antt =====
-- What a renewal does to the keystore that it is given, for every keystore that keeps its contract.
use go_acme_store.Common.{
  ◌+◌, ◌*◌, ◌≤◌, String, ◌<>◌, ◌≡◌, ◌≢◌, ◌⊎◌, sym, ap, ◌∙◌, true, some, List, [], ◌∷◌, Result, ok,
  err, arith, Result-cases, Bool-cases, inl, inr, ◌==◌,
}
use go_acme_store.Crypto.Certificates.{Cert, get_leaf_cert, check_if_cert_needs_update, day}
use go_acme_store.Crypto.Certificates.Laws.{no_update_iff}
use go_acme_store.Keystore.{Keystore}
use go_acme_store.Keystore.Laws.{IsLawful, IsReliable}
use go_acme_store.Keystore.Types.{CertAndKey}
use go_acme_store.Keystore.Issued.{new_cert_and_key, new_cert_and_key_lem}
use go_acme_store.Acme.Solvers.{get_solver}
use go_acme_store.Acme.Renewal.{
  Env, Obtained, failed_with, mark_failed, retrieve_acme_account, key_pem, store_obtained,
  renew_cert_if_needed,
}

module _ (K : Keystore) (env : Env) (cn : String) (sans : List String) (s : K.State) where
  -- If the stored leaf certificate is still valid 21 days from now, the renewal succeeds and
  -- changes nothing.
  pub renew_fresh :
      (pem : String) (leaf : Cert env.pki)
      → K.get_leaf_cert cn s ≡ ok pem
      → get_leaf_cert env.pki pem ≡ some leaf
      → env.now + 21 * day ≤ leaf.not_after
      → renew_cert_if_needed K env cn sans s ≡ (ok tt, s)
  unfolding renew_cert_if_needed
  renew_fresh pem leaf stored found valid =
      ground (arith, (no_update_iff env.pki env.now pem 21 (omega arith)).1 (leaf, found, valid))

  -- The last part of the renewal is reached.
  abbrev pub Reaches : Type 0
  Reaches =
      (key : env.pki.PrivateKey) × (r : Result (List Obtained)) × (renew_cert_if_needed K env cn
          sans s
        ≡ store_obtained K env cn key r s)

  -- A renewal that is needed fails and changes nothing, or reaches its last part.
  pub renew_needed :
      (pem : String)
      → K.get_leaf_cert cn s ≡ ok pem
      → check_if_cert_needs_update env.pki env.now pem 21 ≡ true
      → ((e : String) × (renew_cert_if_needed K env cn sans s ≡ (err e, s))) ⊎ Reaches
  unfolding renew_cert_if_needed
  renew_needed pem stored needed = elim (Result-cases (get_solver env.viper)) [
    | inr (e, p) ↦ inl (e, ground arith)
    | inl (solver, p) ↦ elim (Result-cases (retrieve_acme_account K env s)) [
      | inr (e, q) ↦ inl (e, ground arith)
      | inl (account, q) ↦ elim (Result-cases env.new_key) [
        | inr (e, r) ↦ inl ("generating certificate key: " <> e, ground arith)
        | inl (key, r) ↦ inr (key, env.provider.obtain solver account key (cn ∷ sans), ground arith)
      ]
    ]
  ]

  pub renew-cases : ((renew_cert_if_needed K env cn sans s).1 ≡ s) ⊎ Reaches
  renew-cases = elim (Result-cases (K.get_leaf_cert cn s)) [
    | inr (e, p) ↦ inl (unfold renew_cert_if_needed in ground arith)
    | inl (pem, p) ↦ elim (Bool-cases (check_if_cert_needs_update env.pki env.now pem 21)) [
      | inr fresh ↦ inl (unfold renew_cert_if_needed in ground arith)
      | inl needed ↦ elim (renew_needed pem p needed) [ inl (e, q) ↦ inl (rw q) | inr r ↦ inr r ]
    ]
  ]

-- The ways to leave a keystore: as it was, or after one store for the domain.
module _ (K : Keystore) (cn : String) (s : K.State) where
  abbrev pub StoresOnly : K.State → Type 0
  StoresOnly t = (t ≡ s) ⊎ ((c : CertAndKey) × (t ≡ (K.store_cert_and_key cn c s).1))

  pub mark_failed-StoresOnly : (message : String) → StoresOnly (mark_failed K cn message s)
  unfolding mark_failed
  mark_failed-StoresOnly message = elim (Result-cases (K.get_cert_and_key cn s)) [
    | inr (e, p) ↦ inl (ground arith)
    | inl (cert, p) ↦ elim (Bool-cases (cert.common_name == "")) [
      | inl nameless ↦ inl (ground arith)
      | inr named ↦ inr (failed_with message cert, ground arith)
    ]
  ]

  module _ (env : Env) where
    obtained-StoresOnly :
        (key : env.pki.PrivateKey) (r : Result (List Obtained))
        → StoresOnly (store_obtained K env cn key r s).1
    unfolding store_obtained
    obtained-StoresOnly key (err e) = mark_failed-StoresOnly e
    obtained-StoresOnly key (ok []) = mark_failed-StoresOnly "<nil>"
    obtained-StoresOnly key (ok (cert ∷ _)) =
        elim (Result-cases (new_cert_and_key env.pki cert.chain_pem (key_pem K env key) cert.url)) [
          | inr (e, p) ↦ inl (ground arith)
          | inl (c, p) ↦ inr (c, ground arith)
        ]

    -- A renewal touches at most the certificate of its own domain, and at most once.
    pub renew-StoresOnly :
        (sans : List String) → StoresOnly (renew_cert_if_needed K env cn sans s).1
    renew-StoresOnly sans = elim (renew-cases K env cn sans s) [
      | inl p ↦ inl p
      | inr (key, r, p) ↦ rw p (obtained-StoresOnly key r)
    ]

  module _ {Accepts : String → Type 0} (L : IsLawful K Accepts) where
    -- What a store for one domain leaves alone.
    pub get_StoresOnly :
        (a : String) (t : K.State)
        → Accepts a
        → Accepts cn
        → a ≢ cn
        → StoresOnly t
        → K.get_cert_and_key a t ≡ K.get_cert_and_key a s
    get_StoresOnly a t ha hd ne (inl p) = rw p
    get_StoresOnly a t ha hd ne (inr (c, p)) = rw p (L.get-store_ne a cn c s ha hd ne)

    pub managed_StoresOnly :
        (t : K.State)
        → Accepts cn
        → StoresOnly t
        → K.get_managed_domains t ≡ K.get_managed_domains s
    managed_StoresOnly t hd (inl p) = rw p
    managed_StoresOnly t hd (inr (c, p)) = rw p (L.managed-store cn c s hd)

module _ (K : Keystore) {Accepts : String → Type 0} (L : IsLawful K Accepts) (env : Env)
    (cn : String) (sans : List String) (s : K.State) where
  obtained_success :
      (key : env.pki.PrivateKey) (r : Result (List Obtained))
      → (store_obtained K env cn key r s).0 ≡ ok tt
      → (c : CertAndKey) × (K.get_cert_and_key cn (store_obtained K env cn key r s).1 ≡ ok c)
        × (c.status ≡ "issued")
        × (c.managed ≡ true)
        × (c.error ≡ "")
  unfolding store_obtained
  obtained_success key (err e) h = absurd (ground arith)
  obtained_success key (ok []) h = absurd (ground arith)
  obtained_success key (ok (cert ∷ _)) h =
      elim (Result-cases (new_cert_and_key env.pki cert.chain_pem (key_pem K env key) cert.url)) [
        | inr (e, p) ↦ absurd (ground arith)
        | inl (c, p) ↦
            let facts =
              new_cert_and_key_lem env.pki cert.chain_pem (key_pem K env key) cert.url c p in
            (c, ground (arith, L.get-store cn c s), facts.1, facts.0, facts.2)
      ]

  -- Over a keystore that keeps its contract, where the leaf certificate can be read: a renewal
  -- that was needed and succeeds leaves an issued and managed certificate, with no error.
  pub renew_success :
      (pem : String)
      → K.get_leaf_cert cn s ≡ ok pem
      → check_if_cert_needs_update env.pki env.now pem 21 ≡ true
      → (renew_cert_if_needed K env cn sans s).0 ≡ ok tt
      → (c : CertAndKey) × (K.get_cert_and_key cn (renew_cert_if_needed K env cn sans s).1 ≡ ok c)
        × (c.status ≡ "issued")
        × (c.managed ≡ true)
        × (c.error ≡ "")
  renew_success pem stored needed done = elim (renew_needed K env cn sans s pem stored needed) [
    | inl (e, p) ↦ absurd (ground arith)
    | inr (key, r, p) ↦
        rw p (obtained_success key r (sym (ap (λ (x : Result (Unit {0}) × K.State). x.0) p) ∙ done))
  ]

module _ (K : Keystore) {Accepts : String → Type 0} (L : IsLawful K Accepts)
    (reliable : IsReliable K) (cn : String) where
  pub get-mark_failed :
      (message : String) (c : CertAndKey) (s : K.State)
      → K.get_cert_and_key cn s ≡ ok c
      → c.common_name ≢ ""
      → K.get_cert_and_key cn (mark_failed K cn message s) ≡ ok (failed_with message c)
  unfolding mark_failed
  get-mark_failed message c s stored named =
      ground
        (arith, L.get-store cn (failed_with message c) s (reliable cn (failed_with message c) s))

  abbrev pub KeptOrFailed : CertAndKey → Result CertAndKey → Type 0
  KeptOrFailed c r = (r ≡ ok c) ⊎ ((m : String) × (r ≡ ok (failed_with m c)))

  module _ (env : Env) (c : CertAndKey) (s : K.State) (stored : K.get_cert_and_key cn s ≡ ok c)
      (named : c.common_name ≢ "") where
    obtained_error :
        (key : env.pki.PrivateKey) (r : Result (List Obtained)) (e : String)
        → (store_obtained K env cn key r s).0 ≡ err e
        → KeptOrFailed c (K.get_cert_and_key cn (store_obtained K env cn key r s).1)
    unfolding store_obtained
    obtained_error key (err m) e h = inr (m, get-mark_failed m c s stored named)
    obtained_error key (ok []) e h = inr ("<nil>", get-mark_failed "<nil>" c s stored named)
    obtained_error key (ok (cert ∷ _)) e h =
        elim (Result-cases (new_cert_and_key env.pki cert.chain_pem (key_pem K env key) cert.url)) [
          | inr (m, p) ↦ inl (ground arith)
          | inl (new, p) ↦ absurd (ground (arith, reliable cn new s))
        ]

    -- Over a keystore that keeps its contract and whose stores succeed: after a renewal that
    -- fails, the domain has the named certificate that it had, at most marked as failed. Its
    -- chain and its key are kept.
    pub renew_error :
        (sans : List String) (e : String)
        → (renew_cert_if_needed K env cn sans s).0 ≡ err e
        → KeptOrFailed c (K.get_cert_and_key cn (renew_cert_if_needed K env cn sans s).1)
    renew_error sans e h = elim (renew-cases K env cn sans s) [
      | inl p ↦ inl (rw p stored)
      | inr (key, r, p) ↦
          rw p (obtained_error key r e (sym (ap (λ (x : Result (Unit {0}) × K.State). x.0) p) ∙ h))
    ]
