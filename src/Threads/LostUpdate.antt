-- ===== src/Threads/LostUpdate.antt =====
-- `handlerRemoveDomain` reads the certificate and stores it again with another mark. A renewal that
-- stores a new certificate in between loses it.
use text.Mathlib.TextEquality.{eq_iff}
use go_acme_store.Common.{String, ◌<>◌, ◌≡◌, ◌≢◌, refl, ap, ◌∙◌, false, List, [], ◌∷◌, ok, arith}
use go_acme_store.Keystore.{Keystore}
use go_acme_store.Keystore.Types.{CertAndKey}
use go_acme_store.Keystore.Issued.{new_cert_and_key}
use go_acme_store.Keystore.Laws.{IsLawful, IsReliable}
use go_acme_store.Acme.Renewal.{Env, Obtained}
use go_acme_store.Api.Response.{message, reply}
use go_acme_store.System.{remove}
use go_acme_store.Threads.{
  Thread, done, call, store_cert, replied, do_call, step, step_at, interleave,
}
use go_acme_store.Threads.Handlers.{unmark_found, unmark, soft_remove, serve_remove, serve}
use go_acme_store.Threads.Orders.{pem_of, store_made, keep_obtained, after_renewal, orders}

module _ (K : Keystore) {Accepts : String → Type 0} (L : IsLawful K Accepts)
    (reliable : IsReliable K) (env : String → Env) (d : String) (hd : Accepts d) where
  -- The removal of the domain, and a renewal to which the provider has answered.
  abbrev pub threads : (env d).pki.PrivateKey → List Obtained → List String → List Thread
  threads key os ds =
      serve (remove d "false")
      ∷ keep_obtained (env d) d (after_renewal d (orders env ds)) key (ok os)
      ∷ []

  -- The response 200 of the removal, and the renewals of the other domains, still to come.
  abbrev pub both_succeeded : List String → List Thread
  both_succeeded ds =
      done (replied (reply 200 (message ("domain " <> (d <> " removed successfully")) d)))
      ∷ orders env ds
      ∷ []

  module _ (key : (env d).pki.PrivateKey) (o : Obtained) (os : List Obtained) (ds : List String)
      (c c' : CertAndKey) (s : K.State) (given : d ≢ "")
      (removed : (K.remove_managed_domain d s).0 ≡ ok tt) (old : K.get_cert_and_key d s ≡ ok c)
      (named : c.common_name ≢ "")
      (made : new_cert_and_key (env d).pki o.chain_pem (pem_of (env d) key) o.url ≡ ok c')
      (named' : c'.common_name ≢ "") where
    abbrev s1 : K.State
    s1 = (K.remove_managed_domain d s).1

    abbrev s2 : K.State
    s2 = (K.store_cert_and_key d c' s1).1

    abbrev goodbye : Thread
    goodbye = done (replied (reply 200 (message ("domain " <> (d <> " removed successfully")) d)))

    removes : step K (serve (remove d "false")) s ≡ (unmark d goodbye, s1)
    unfolding step do_call serve serve_remove soft_remove
    removes = ground (arith, eq_iff "false" "true")

    reads_cert :
        (x : CertAndKey) (t : K.State)
        → K.get_cert_and_key d t ≡ ok x
        → x.common_name ≢ ""
        → step K (unmark d goodbye) t
          ≡ (call (store_cert d (record x { managed = false })) (λ _. goodbye), t)
    unfolding step do_call unmark unmark_found
    reads_cert x t h n = ground arith

    renews :
        (t : K.State)
        → step K (keep_obtained (env d) d (after_renewal d (orders env ds)) key (ok (o ∷ os))) t
          ≡ (orders env ds, (K.store_cert_and_key d c' t).1)
    unfolding step do_call keep_obtained store_made
    renews t = ground (arith, reliable d c' t)

    overwrites :
        (x : CertAndKey) (t : K.State)
        → step K (call (store_cert d x) (λ _. goodbye)) t
          ≡ (goodbye, (K.store_cert_and_key d x t).1)
    unfolding step do_call
    overwrites x t = refl

    lost :
        interleave K (0 ∷ 0 ∷ 1 ∷ 0 ∷ []) (threads key (o ∷ os) ds) s
        ≡ (both_succeeded ds, (K.store_cert_and_key d (record c { managed = false }) s2).1)
    unfolding interleave step_at
    lost = ground (
      arith,
      removes,
      reads_cert c s1 (L.get-remove d d s hd ∙ old) named,
      renews s1,
      overwrites (record c { managed = false }) s2,
    )

    kept_new :
        interleave K (0 ∷ 1 ∷ 0 ∷ 0 ∷ []) (threads key (o ∷ os) ds) s
        ≡ (both_succeeded ds, (K.store_cert_and_key d (record c' { managed = false }) s2).1)
    unfolding interleave step_at
    kept_new = ground (
      arith,
      removes,
      renews s1,
      reads_cert c' s2 (L.get-store d c' s1 (reliable d c' s1)) named',
      overwrites (record c' { managed = false }) s2,
    )

    stored : (x : CertAndKey) → K.get_cert_and_key d (K.store_cert_and_key d x s2).1 ≡ ok x
    stored x = L.get-store d x s2 (reliable d x s2)

    -- Over a keystore that keeps its contract and whose stores succeed: a domain with a named
    -- certificate is removed without delete_cert while a renewal, to which the provider has
    -- answered, is about to store a named certificate. If the renewal stores between the
    -- removal's read and its store, the new certificate is lost: the domain has the old one, as
    -- unmanaged. If it stores before that read, the domain has the new one, as unmanaged. Both
    -- times the removal is answered with 200 and the renewal goes on without an error. The name
    -- of the domain is accepted and not empty, and the keystore takes the domain off its list
    -- without an error.
    pub interleave_soft_delete :
        ((interleave K (0 ∷ 0 ∷ 1 ∷ 0 ∷ []) (threads key (o ∷ os) ds) s).0 ≡ both_succeeded ds)
        × (K.get_cert_and_key d (interleave K (0 ∷ 0 ∷ 1 ∷ 0 ∷ []) (threads key (o ∷ os) ds) s).1
            ≡ ok (record c { managed = false }))
        × ((interleave K (0 ∷ 1 ∷ 0 ∷ 0 ∷ []) (threads key (o ∷ os) ds) s).0 ≡ both_succeeded ds)
        × (K.get_cert_and_key d (interleave K (0 ∷ 1 ∷ 0 ∷ 0 ∷ []) (threads key (o ∷ os) ds) s).1
            ≡ ok (record c' { managed = false }))
    interleave_soft_delete = (
      ap (λ (x : List Thread × K.State). x.0) lost,
      ap (λ (x : List Thread × K.State). K.get_cert_and_key d x.1) lost ∙ stored _,
      ap (λ (x : List Thread × K.State). x.0) kept_new,
      ap (λ (x : List Thread × K.State). K.get_cert_and_key d x.1) kept_new ∙ stored _,
    )
