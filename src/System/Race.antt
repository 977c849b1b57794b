-- ===== src/System/Race.antt =====
-- A removal in the middle of a renewal.
use go_acme_store.Common.{
  String, ◌≡◌, ◌≢◌, refl, ap, ◌∙◌, true, false, some, List, [], ◌∷◌, ok, arith, contains, without,
}
use go_acme_store.Keystore.{Keystore}
use go_acme_store.Keystore.Types.{CertAndKey}
use go_acme_store.Keystore.Issued.{new_cert_and_key, new_cert_and_key_lem}
use go_acme_store.Keystore.Laws.{IsLawful, IsReliable, ok_map}
use go_acme_store.Acme.Renewal.{Env, Obtained, key_pem, store_obtained}
use go_acme_store.Acme.Renewal.Split.{answered, renew_store}
use go_acme_store.Api.Response.{with_keystore}
use go_acme_store.Api.Domains.{handler_remove_domain}
use go_acme_store.Api.Domains.Laws.{removed, managed-mark, not-contains-without}
use go_acme_store.Api.Certs.{handler_delete_cert, delete_found}
use go_acme_store.System.{remove, handle, order_store, storing, request, store, write, perform, run}

module _ (K : Keystore) {Accepts : String → Type 0} (L : IsLawful K Accepts)
    (reliable : IsReliable K) {Moment : Type 0} (env : Moment → Env) (m : Moment) (d : String)
    (hd : Accepts d) where
  order_issued :
      (key : (env m).pki.PrivateKey) (o : Obtained) (os : List Obtained) (c : CertAndKey)
      (s : K.State)
      → new_cert_and_key (env m).pki o.chain_pem (key_pem K (env m) key) o.url ≡ ok c
      → order_store K env m d (answered key (ok (o ∷ os))) s ≡ (K.store_cert_and_key d c s).1
  unfolding order_store renew_store store_obtained
  order_issued key o os c s made = ground (arith, reliable d c s)

  refused :
      (c : CertAndKey) (t : K.State)
      → d ≢ ""
      → K.get_cert_and_key d t ≡ ok c
      → c.managed ≡ true
      → (handler_delete_cert K d (some t)).0.status ≡ 400
  unfolding handler_delete_cert delete_found with_keystore
  refused c t given stored managed = ground arith

  stays : (s : K.State) → (t : K.State) × ((handler_remove_domain K d "false" (some s)).1 ≡ some t)
  unfolding handler_remove_domain with_keystore
  stays s = (_, refl)

  -- Over a keystore that keeps its contract and whose stores succeed, where the list of managed
  -- domains can be read and the name of the domain is accepted: if the domain is removed, with
  -- the answer 200 and without delete_cert, after the provider has issued its certificate and
  -- before that is stored, then afterwards the domain is not managed, its certificate is the new
  -- one, marked as managed, and a request to delete that certificate is refused with 400.
  pub remove_during_renewal :
      (key : (env m).pki.PrivateKey) (o : Obtained) (os : List Obtained) (ds l : List String)
      (c : CertAndKey) (s : K.State)
      → d ≢ ""
      → K.get_managed_domains s ≡ ok l
      → new_cert_and_key (env m).pki o.chain_pem (key_pem K (env m) key) o.url ≡ ok c
      → (handler_remove_domain K d "false" (some s)).0.status ≡ 200
      → (t : K.State) × ((run K env
            (request (remove d "false") ∷ store ∷ [])
            (record { ks = some s; work = storing m d (answered key (ok (o ∷ os))) ds })).ks
          ≡ some t)
        × (K.is_managed_domain d t ≡ ok false)
        × (K.get_cert_and_key d t ≡ ok c)
        × (c.managed ≡ true)
        × ((handler_delete_cert K d (some t)).0.status ≡ 400)
  unfolding run perform handle write
  remove_during_renewal key o os ds l c s given listed made gone =
      let (u, left) = stays s in
      let (fine, e) = removed K d s u gone left in
      let (was, after) = L.managed-remove d s l listed fine in
      let t : K.State = (K.store_cert_and_key d c u).1 in
      let here : K.get_managed_domains t ≡ ok (without d l) =
        L.managed-store d c u hd ∙ ap K.get_managed_domains e ∙ managed-mark K L d _ hd ∙ after in
      let facts =
        new_cert_and_key_lem (env m).pki o.chain_pem (key_pem K (env m) key) o.url c made in
      let found : K.get_cert_and_key d t ≡ ok c = L.get-store d c u (reliable d c u) in
      (
        t,
        ap (write K env (storing m d (answered key (ok (o ∷ os))) ds)) left
            ∙ ap some (order_issued key o os c u made),
        L.is_managed_lem d t
            ∙ ap (ok_map (λ l. contains l d)) here
            ∙ ap ok (not-contains-without d l),
        found,
        facts.0,
        refused c t given found facts.0,
      )
