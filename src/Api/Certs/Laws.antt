-- ===== src/Api/Certs/Laws.antt =====
-- What the certificate handlers guarantee over a keystore that keeps its contract.
use go_acme_store.Common.{
  String, String-discrete, ◌≡◌, ◌≢◌, ap, true, some, List, [], ◌∷◌, map, Result, ok, err, arith,
  Result-cases, inl, inr, contains, contains-append, All, All-append,
}
use mathlib.Core.Bool.{or-true}
use mathlib.Core.List.{map-append}
use text.Mathlib.TextEquality.{eq_iff}
use go_acme_store.Keystore.{Keystore}
use go_acme_store.Keystore.Laws.{IsLawful}
use go_acme_store.Keystore.Types.{CertAndKey, no_cert}
use go_acme_store.Api.Response.{CertInfo, certs, with_keystore, reply}
use go_acme_store.Api.Certs.{
  shown_status, listed_cert, cert_infos, handler_certs, handler_delete_cert,
}

module _ (K : Keystore) {Accepts : String → Type 0} (L : IsLawful K Accepts) where
  -- Over a keystore that keeps its contract, for accepted names: a request to delete a
  -- certificate never takes a managed one away. Whatever domain it names, a certificate that was
  -- marked as managed is still there.
  pub delete_keeps_managed :
      (a d : String) (c : CertAndKey) (s t : K.State)
      → Accepts a
      → Accepts d
      → K.get_cert_and_key a s ≡ ok c
      → c.managed ≡ true
      → (handler_delete_cert K d (some s)).1 ≡ some t
      → K.get_cert_and_key a t ≡ ok c
  unfolding handler_delete_cert with_keystore
  delete_keeps_managed a d c s t ha hd stored managed left = elim (String-discrete a d) [
    | yes e ↦ ground (arith, ap (λ x. K.get_cert_and_key x s) e)
    | no ne ↦ elim (Result-cases (K.get_cert_and_key d s)) [
      | inr (m, p) ↦ ground arith
      | inl (x, p) ↦ ground (arith, L.get-delete_ne a d s ha hd ne)
    ]
  ]

  -- Over a keystore that keeps its contract: after a deletion of a certificate that is answered
  -- with 200 the domain, of an accepted name, has no certificate, and the list of managed domains
  -- is what it was.
  pub delete_done :
      (d : String) (s t : K.State)
      → Accepts d
      → (handler_delete_cert K d (some s)).0.status ≡ 200
      → (handler_delete_cert K d (some s)).1 ≡ some t
      → (K.get_cert_and_key d t ≡ ok no_cert) × (K.get_managed_domains t ≡ K.get_managed_domains s)
  unfolding handler_delete_cert with_keystore
  delete_done d s t hd answered left = elim (Result-cases (K.get_cert_and_key d s)) [
    | inr (m, p) ↦ ground arith
    | inl (x, p) ↦ ground (arith, L.get-delete d s, L.managed-delete d s hd)
  ]

-- Every entry that `handlerCerts` lists has a name and a status.
abbrev pub IsShown : CertInfo → Type 0
IsShown i = (i.common_name ≢ "") × (i.status ≢ "")

shown_status-ne : (c : CertAndKey) → shown_status c ≢ ""
unfolding shown_status
shown_status-ne c = ground (arith, eq_iff "issued" "", eq_iff "pending" "")

module _ (K : Keystore) where
  -- The names that a list of certificates shows.
  abbrev pub names_shown : List CertInfo → List String
  names_shown = map (λ (i : CertInfo). i.common_name)

  listed-IsShown : (r : Result CertAndKey) → All IsShown (listed_cert K r)
  unfolding listed_cert
  listed-IsShown (err e) = tt
  listed-IsShown (ok c) = ground (arith, shown_status-ne c)

  infos-IsShown : (s : K.State) (ds : List String) → All IsShown (cert_infos K s ds)
  unfolding cert_infos
  infos-IsShown s [] = tt
  infos-IsShown s (d ∷ ds) =
      All-append IsShown _ _ (listed-IsShown (K.get_cert_and_key d s)) (infos-IsShown s ds)

  listed_name :
      (c : CertAndKey)
      → c.common_name ≢ ""
      → contains (names_shown (listed_cert K (ok c))) c.common_name ≡ true
  unfolding listed_cert
  listed_name c named = ground arith

  infos_complete :
      (s : K.State) (ds : List String) (d : String) (c : CertAndKey)
      → contains ds d ≡ true
      → K.get_cert_and_key d s ≡ ok c
      → c.common_name ≢ ""
      → contains (names_shown (cert_infos K s ds)) c.common_name ≡ true
  unfolding cert_infos
  infos_complete s [] d c listed stored named = absurd (ground arith)
  infos_complete s (x ∷ ds) d c listed stored named = elim (String-discrete x d) [
    | yes e ↦ rw (map-append, contains-append, e, stored, listed_name c named)
    | no ne ↦
        rw (map-append, contains-append, infos_complete s ds d c (ground arith) stored named)
          (or-true _)
  ]

  -- handlerCerts over a keystore that can list its domains: every entry has a name and a status,
  -- and the certificate of every listed domain is shown by its name, if it has one.
  pub certs-IsShown :
      (s : K.State) (ds : List String)
      → K.get_all_domains s ≡ ok ds
      → (d : String) (c : CertAndKey) → contains ds d ≡ true
      → K.get_cert_and_key d s ≡ ok c
      → c.common_name ≢ ""
      → (infos : List CertInfo) × (handler_certs K (some s) ≡ (reply 200 (certs infos), some s))
        × All IsShown infos
        × (contains (names_shown infos) c.common_name ≡ true)
  unfolding handler_certs with_keystore
  certs-IsShown s ds e d c listed stored named = (
    cert_infos K s ds,
    ground arith,
    infos-IsShown s ds,
    infos_complete s ds d c listed stored named,
  )
