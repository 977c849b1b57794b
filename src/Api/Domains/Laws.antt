-- ===== src/Api/Domains/Laws.antt =====
-- What the domain handlers guarantee over a keystore that keeps its contract.
use go_acme_store.Common.{
  String, String-discrete, ◌≡◌, ◌≢◌, refl, ap, ◌∙◌, false, some, List, [], ◌∷◌, ◌++◌, ok, err,
  arith, Result-cases, inl, inr, ==_self, contains, without,
}
use go_acme_store.Keystore.{Keystore}
use go_acme_store.Keystore.Laws.{IsLawful}
use go_acme_store.Keystore.Types.{CertAndKey, no_cert}
use go_acme_store.Api.Response.{with_keystore}
use go_acme_store.Api.Domains.{
  AddDomainRequest, handler_add_domain, handler_remove_domain, mark_unmanaged,
}

without_append :
    (d : String) (l : List String) → contains l d ≡ false → without d (l ++ (d ∷ [])) ≡ l
without_append d [] h = ground arith
without_append d (x ∷ l) h = ground (arith, without_append d l)

pub not-contains-without : (d : String) (l : List String) → contains (without d l) d ≡ false
not-contains-without d [] = refl
not-contains-without d (x ∷ l) = ground (arith, not-contains-without d l)

module _ (K : Keystore) where
  created :
      (q : AddDomainRequest) (s t : K.State)
      → (handler_add_domain K (some q) (some s)).0.status ≡ 201
      → (handler_add_domain K (some q) (some s)).1 ≡ some t
      → ((K.add_managed_domain_with_sans q.domain q.sans s).0 ≡ ok tt)
        × (t ≡ (K.add_managed_domain_with_sans q.domain q.sans s).1)
  unfolding handler_add_domain with_keystore
  created q s t answered left = ground arith

  -- The soft delete.
  pub removed :
      (d : String) (s t : K.State)
      → (handler_remove_domain K d "false" (some s)).0.status ≡ 200
      → (handler_remove_domain K d "false" (some s)).1 ≡ some t
      → ((K.remove_managed_domain d s).0 ≡ ok tt)
        × (t ≡ mark_unmanaged K d (K.remove_managed_domain d s).1)
  unfolding handler_remove_domain with_keystore String-discrete
  removed d s t answered left = ground arith

module _ (K : Keystore) {Accepts : String → Type 0} (L : IsLawful K Accepts) where
  -- Over a keystore that keeps its contract, for accepted names: a request that is answered with
  -- 201 adds its domain at the end of the managed domains. The domain was not managed before, and
  -- the certificate of any other domain stays.
  pub add_created :
      (q : AddDomainRequest) (s t : K.State) (l : List String) (a : String)
      → Accepts q.domain
      → Accepts a
      → a ≢ q.domain
      → K.get_managed_domains s ≡ ok l
      → (handler_add_domain K (some q) (some s)).0.status ≡ 201
      → (handler_add_domain K (some q) (some s)).1 ≡ some t
      → (contains l q.domain ≡ false)
        × (K.get_managed_domains t ≡ ok (l ++ (q.domain ∷ [])))
        × (K.get_cert_and_key a t ≡ K.get_cert_and_key a s)
  add_created q s t l a hd ha ne listed answered left =
      let (fine, e) = created K q s t answered left in
      let (fresh, now) = L.managed-add q.domain q.sans s l hd listed fine in
      (fresh, rw e now, rw e (L.get-add_ne a q.domain q.sans s ha hd ne))

  pub managed-mark :
      (d : String) (s : K.State)
      → Accepts d
      → K.get_managed_domains (mark_unmanaged K d s) ≡ K.get_managed_domains s
  unfolding mark_unmanaged
  managed-mark d s hd = elim (Result-cases (K.get_cert_and_key d s)) [
    | inr (e, p) ↦ ground arith
    | inl (c, p) ↦ ground (arith, L.managed-store d (record c { managed = false }) s hd)
  ]

  -- Over a keystore that keeps its contract: adding a domain of an accepted name and removing it
  -- again without delete_cert, both with success, restores the list of managed domains.
  pub remove-add :
      (q : AddDomainRequest) (s t u : K.State) (l : List String)
      → Accepts q.domain
      → K.get_managed_domains s ≡ ok l
      → (handler_add_domain K (some q) (some s)).0.status ≡ 201
      → (handler_add_domain K (some q) (some s)).1 ≡ some t
      → (handler_remove_domain K q.domain "false" (some t)).0.status ≡ 200
      → (handler_remove_domain K q.domain "false" (some t)).1 ≡ some u
      → K.get_managed_domains u ≡ ok l
  remove-add q s t u l hd listed added left gone left' =
      let (fine, e) = created K q s t added left in
      let (fresh, now) = L.managed-add q.domain q.sans s l hd listed fine in
      let (fine', e') = removed K q.domain t u gone left' in
      let at_t : K.get_managed_domains t ≡ ok (l ++ (q.domain ∷ [])) = rw e now in
      let (was, after) = L.managed-remove q.domain t (l ++ (q.domain ∷ [])) at_t fine' in
      rw e' (managed-mark q.domain _ hd ∙ after ∙ ap ok (without_append q.domain l fresh))

  -- Over a keystore that keeps its contract: a removal without delete_cert that is answered with
  -- 200 takes a domain of an accepted name off the list. If the domain has a named certificate
  -- and the store of it succeeds, the certificate and its key are kept: only the mark managed is
  -- taken away.
  pub remove_keeps_cert :
      (d : String) (c : CertAndKey) (s t : K.State) (l : List String)
      → Accepts d
      → K.get_managed_domains s ≡ ok l
      → K.get_cert_and_key d s ≡ ok c
      → c.common_name ≢ ""
      → (K.store_cert_and_key d (record c { managed = false }) (K.remove_managed_domain d s).1).0
        ≡ ok tt
      → (handler_remove_domain K d "false" (some s)).0.status ≡ 200
      → (handler_remove_domain K d "false" (some s)).1 ≡ some t
      → (K.get_managed_domains t ≡ ok (without d l))
        × (K.get_cert_and_key d t ≡ ok (record c { managed = false }))
  remove_keeps_cert d c s t l hd listed stored named fine_store gone left =
      let (fine, e) = removed K d s t gone left in
      let (was, after) = L.managed-remove d s l listed fine in
      (
        rw e (managed-mark d _ hd ∙ after),
        rw e (
            unfold mark_unmanaged in
            ground (
              arith,
              L.get-remove d d s hd,
              L.get-store d (record c { managed = false }) (K.remove_managed_domain d s).1
                  fine_store,
            )),
      )

  -- Over a keystore that keeps its contract, for an accepted name that is not empty: a removal
  -- with delete_cert=true where the removal of the domain fails and the deletion succeeds is
  -- answered with 200 and leaves no certificate. The list of managed domains is the one that the
  -- failed removal left.
  pub hard_delete_hides_error :
      (d e : String) (s : K.State)
      → Accepts d
      → d ≢ ""
      → (K.remove_managed_domain d s).0 ≡ err e
      → (K.delete_cert_and_key d (K.remove_managed_domain d s).1).0 ≡ ok tt
      → (t : K.State) × ((handler_remove_domain K d "true" (some s)).1 ≡ some t)
        × ((handler_remove_domain K d "true" (some s)).0.status ≡ 200)
        × (K.get_cert_and_key d t ≡ ok no_cert)
        × (K.get_managed_domains t ≡ K.get_managed_domains (K.remove_managed_domain d s).1)
  unfolding handler_remove_domain with_keystore
  hard_delete_hides_error d e s hd named failed deleted =
      let s' : K.State = (K.remove_managed_domain d s).1 in
      (
        (K.delete_cert_and_key d s').1,
        ground (arith, ==_self "true"),
        ground (arith, ==_self "true"),
        L.get-delete d s' deleted,
        L.managed-delete d s' hd,
      )
