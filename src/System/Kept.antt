-- ===== src/System/Kept.antt =====
-- What each call of the keystore leaves of the certificate of a domain.
use go_acme_store.Common.{
  String, String-discrete, ◌≡◌, ◌≢◌, ◌⊎◌, refl, sym, ap, ◌∙◌, false, Option, some, List, ok, arith,
  Result-cases, Bool-cases, inl, inr, ◌==◌,
}
use mathlib.Core.Path.{subst}
use go_acme_store.Keystore.{Keystore}
use go_acme_store.Keystore.Types.{CertAndKey}
use go_acme_store.Keystore.Laws.{IsLawful, IsReliable, as_managed}
use go_acme_store.Api.Domains.{mark_unmanaged}

-- The name, the chain and the key are the same. The marks may differ.
pub record SameKey (c c' : CertAndKey) : Type 0 where
  pub name : c'.common_name ≡ c.common_name
  pub chain : c'.cert_chain_pem ≡ c.cert_chain_pem
  pub key : c'.private_key_pem ≡ c.private_key_pem

pub same_key : (c : CertAndKey) → SameKey c c
same_key c = record { name = refl; chain = refl; key = refl }

pub SameKey-trans : (c d e : CertAndKey) → SameKey c d → SameKey d e → SameKey c e
SameKey-trans c d e p q = record {
  name = q.name ∙ p.name;
  chain = q.chain ∙ p.chain;
  key = q.key ∙ p.key;
}

module _ (K : Keystore) (a : String) where
  -- A named certificate of `a` keeps its key from `s` to `t`.
  abbrev pub Keeps : K.State → K.State → Type 0
  Keeps s t =
      (c : CertAndKey)
      → K.get_cert_and_key a s ≡ ok c
      → c.common_name ≢ ""
      → (c' : CertAndKey) × (K.get_cert_and_key a t ≡ ok c') × SameKey c c'

  pub Keeps-same : (s t : K.State) → K.get_cert_and_key a t ≡ K.get_cert_and_key a s → Keeps s t
  Keeps-same s t p c stored named = (c, p ∙ stored, same_key c)

  pub Keeps-trans : (s t u : K.State) → Keeps s t → Keeps t u → Keeps s u
  Keeps-trans s t u p q c stored named =
      let (d, there, same) = p c stored named in
      let (e, after, same') = q d there (λ x. named (sym same.name ∙ x)) in
      (e, after, SameKey-trans c d e same same')

module _ (K : Keystore) {Accepts : String → Type 0} (L : IsLawful K Accepts)
    (reliable : IsReliable K) (a : String) (ha : Accepts a) where
  pub add-Keeps :
      (d : String) (sans : List String) (s : K.State)
      → Accepts d
      → Keeps K a s (K.add_managed_domain_with_sans d sans s).1
  add-Keeps d sans s hd c stored named = elim (String-discrete a d) [
    | no ne ↦ Keeps-same K a s _ (L.get-add_ne a d sans s ha hd ne) c stored named
    | yes e ↦
        subst
          (λ (x : String).
            (c' : CertAndKey) × (K.get_cert_and_key a (K.add_managed_domain_with_sans x sans s).1
              ≡ ok c')
            × SameKey c c')
          e
          (elim (Result-cases (K.add_managed_domain_with_sans a sans s).0) [
            | inl (u, p) ↦ (
              as_managed c,
              L.get-add a sans c s reliable ha stored named p,
              record { name = refl; chain = refl; key = refl },
            )
            | inr (m, p) ↦ (c, L.get-add_err a sans m s ha p ∙ stored, same_key c)
          ])
  ]

  -- A store of the same certificate with other marks.
  pub store-Keeps :
      (d : String) (c' : CertAndKey) (s : K.State)
      → Accepts d
      → ((c : CertAndKey) → K.get_cert_and_key d s ≡ ok c → SameKey c c')
      → Keeps K a s (K.store_cert_and_key d c' s).1
  store-Keeps d c' s hd same c stored named = elim (String-discrete a d) [
    | no ne ↦ Keeps-same K a s _ (L.get-store_ne a d c' s ha hd ne) c stored named
    | yes e ↦ (
      c',
      ap (λ x. K.get_cert_and_key x (K.store_cert_and_key d c' s).1) e
          ∙ L.get-store d c' s (reliable d c' s),
      same c (sym (ap (λ x. K.get_cert_and_key x s) e) ∙ stored),
    )
  ]

  pub delete-Keeps :
      (d : String) (s : K.State) → Accepts d → d ≢ a → Keeps K a s (K.delete_cert_and_key d s).1
  delete-Keeps d s hd ne = Keeps-same K a s _ (L.get-delete_ne a d s ha hd (λ e. ne (sym e)))

  -- The state is left, or the certificate of `d` is stored again with other marks.
  abbrev pub Remarks : String → K.State → K.State → Type 0
  Remarks d s t =
      (t ≡ s)
      ⊎ ((c c' : CertAndKey) × (K.get_cert_and_key d s ≡ ok c)
          × SameKey c c'
          × (t ≡ (K.store_cert_and_key d c' s).1))

  pub Remarks-Keeps : (d : String) (s t : K.State) → Accepts d → Remarks d s t → Keeps K a s t
  Remarks-Keeps d s t hd (inl p) = Keeps-same K a s t (ap (K.get_cert_and_key a) p)
  Remarks-Keeps d s t hd (inr (c, c', stored, same, p)) =
      subst (λ x. Keeps K a s x) (sym p)
        (store-Keeps d c' s hd
          (λ e q. let eq : c ≡ e = ground arith in subst (λ x. SameKey x c') eq same))

  pub mark-Remarks : (d : String) (s : K.State) → Remarks d s (mark_unmanaged K d s)
  unfolding mark_unmanaged
  mark-Remarks d s = elim (Result-cases (K.get_cert_and_key d s)) [
    | inr (e, p) ↦ inl (ground arith)
    | inl (c, p) ↦ elim (Bool-cases (c.common_name == "")) [
      | inl nameless ↦ inl (ground arith)
      | inr named ↦ inr (
        c,
        record c { managed = false },
        p,
        record { name = refl; chain = refl; key = refl },
        ground arith,
      )
    ]
  ]

  pub remove-Keeps : (d : String) (s : K.State) → Keeps K a s (K.remove_managed_domain d s).1
  remove-Keeps d s = Keeps-same K a s _ (L.get-remove a d s ha)

  -- A keystore is left in which `a` keeps its key.
  abbrev pub Leaves : K.State → Option K.State → Type 0
  Leaves s r = (t : K.State) × (r ≡ some t) × Keeps K a s t

  pub Leaves-same : (s : K.State) (r : Option K.State) → r ≡ some s → Leaves s r
  Leaves-same s r p = (s, p, Keeps-same K a s s refl)
