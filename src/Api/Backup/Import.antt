-- ===== src/Api/Backup/Import.antt =====
-- The two loops of `handlerImportKeystore` over a keystore that keeps its contract.
use go_acme_store.Common.{
  ◌≤◌, String, ◌≡◌, ◌≢◌, ◌⊎◌, refl, sym, ap, ◌∙◌, true, false, ◌||◌, none, some, List, [], ◌∷◌,
  ◌++◌, Result, ok, Result-cases, Bool-cases, inl, inr, arith, String-discrete, contains,
  contains-append, All, Distinct, if◌then◌else◌,
}
use go_acme_store.Common.Dict.{Dict, keys, lookup, contains-keys}
use go_acme_store.Keystore.{Keystore}
use go_acme_store.Keystore.Types.{CertAndKey}
use go_acme_store.Keystore.Laws.{IsLawful, IsReliable, as_managed}
use go_acme_store.Api.Backup.{
  Tally, count_result, sans_of, import_certs, import_add, import_domain, import_domains,
}

-- The loop over the certificates: each is stored under its domain, and nothing else changes.
module _ (K : Keystore) {Accepts : String → Type 0} (L : IsLawful K Accepts)
    (reliable : IsReliable K) where
  pub get-import_certs :
      (a : String) (certs : Dict CertAndKey) (t : Tally) (s : K.State)
      → Accepts a
      → All Accepts (keys certs)
      → Distinct (keys certs)
      → K.get_cert_and_key a (import_certs K certs t s).1
        ≡ elim (lookup a certs) [ some c ↦ ok c | none ↦ K.get_cert_and_key a s ]
  unfolding import_certs lookup
  get-import_certs a [] t s ha hs distinct = refl
  get-import_certs a ((d, c) ∷ rest) t s ha (hd, hs) (fresh, distinct) =
      let (r, s') = K.store_cert_and_key d c s in
      elim (String-discrete a d) [
        | yes e ↦ ground (
          arith,
          get-import_certs a rest (count_result r t) s' ha hs distinct,
          contains-keys rest a,
          ap (contains (keys rest)) e,
          L.get-store d c s (reliable d c s),
          ap (λ x. K.get_cert_and_key x s') e,
        )
        | no ne ↦ ground (
          arith,
          get-import_certs a rest (count_result r t) s' ha hs distinct,
          L.get-store_ne a d c s ha hd ne,
        )
      ]

  pub managed-import_certs :
      (certs : Dict CertAndKey) (t : Tally) (s : K.State)
      → All Accepts (keys certs)
      → K.get_managed_domains (import_certs K certs t s).1 ≡ K.get_managed_domains s
  unfolding import_certs
  managed-import_certs [] t s hs = refl
  managed-import_certs ((d, c) ∷ rest) t s (hd, hs) =
      let (r, s') = K.store_cert_and_key d c s in
      managed-import_certs rest (count_result r t) s' hs ∙ L.managed-store d c s hd

-- What becomes of a certificate where the domains `ds` are added.
abbrev pub Flipped : (K : Keystore) → List String → String → CertAndKey → K.State → Type 0
Flipped K ds a c s =
    (K.get_cert_and_key a s ≡ ok c)
    ⊎ ((contains ds a ≡ true) × (K.get_cert_and_key a s ≡ ok (as_managed c)))

-- The loop over the domains. Its counter of failures never falls.
module _ (K : Keystore) (certs : Dict CertAndKey) where
  failed-import_domain :
      (d : String) (t : Tally) (s : K.State) → t.failed ≤ (import_domain K certs d t s).0.failed
  unfolding import_domain
  failed-import_domain d t s = elim (Result-cases (K.is_managed_domain d s)) [
    | inr (e, p) ↦ ground arith
    | inl (managed, p) ↦ ground arith
  ]

  failed-import_domains :
      (ds : List String) (t : Tally) (s : K.State)
      → t.failed ≤ (import_domains K certs ds t s).0.failed
  unfolding import_domains
  failed-import_domains [] t s = omega arith
  failed-import_domains (d ∷ ds) t s =
      let (t', s') = import_domain K certs d t s in
      omega (arith, failed-import_domains ds t' s', failed-import_domain d t s)

module _ (K : Keystore) {Accepts : String → Type 0} (L : IsLawful K Accepts)
    (reliable : IsReliable K) (certs : Dict CertAndKey) where
  import_add_lem :
      (d : String) (sans : List String) (s : K.State)
      → import_add K d sans s ≡ K.add_managed_domain_with_sans d sans s
  unfolding import_add
  import_add_lem d [] s = L.add_lem d s
  import_add_lem d (san ∷ sans) s = refl

  pub record Added (ds : List String) (s : K.State) (l : List String) (t : K.State) : Type 0 where
    pub now : List String
    pub listed : K.get_managed_domains t ≡ ok now
    pub joined : (b : String) → contains now b ≡ (contains l b || contains ds b)
    pub kept :
        (a : String) (c : CertAndKey)
        → Accepts a
        → K.get_cert_and_key a s ≡ ok c
        → c.common_name ≢ ""
        → Flipped K ds a c t

  abbrev sans_for : String → List String
  sans_for d = sans_of (lookup d certs)

  module _ (d : String) (hd : Accepts d) (t : Tally) (s : K.State) (l : List String)
      (listed : K.get_managed_domains s ≡ ok l) where
    abbrev outcome : Result (Unit {0}) × K.State
    outcome = K.add_managed_domain_with_sans d (sans_for d) s

    step_new : contains l d ≡ false → outcome.0 ≡ ok tt → Added (d ∷ []) s l outcome.1
    step_new new fine = record {
      now = l ++ (d ∷ []);
      listed = (L.managed-add d (sans_for d) s l hd listed fine).1;
      joined = λ b. contains-append l (d ∷ []) b;
      kept = λ a c ha stored named. elim (String-discrete a d) [
        | no ne ↦ inl (L.get-add_ne a d (sans_for d) s ha hd ne ∙ stored)
        | yes e ↦ inr (
          ground arith,
          ap (λ x. K.get_cert_and_key x outcome.1) e
              ∙ L.get-add d (sans_for d) c s reliable hd
                  (sym (ap (λ x. K.get_cert_and_key x s) e) ∙ stored) named fine,
        )
      ];
    }

    -- The round in one equation.
    import_domain_lem :
        import_domain K certs d t s
        ≡ (if contains l d then (t, s) else (count_result outcome.0 t, outcome.1))
    unfolding import_domain
    import_domain_lem = ground (arith, L.is_managed_lem d s, import_add_lem d (sans_for d) s)

    step :
        (import_domain K certs d t s).0.failed ≡ t.failed
        → Added (d ∷ []) s l (import_domain K certs d t s).1
    step fine = elim (Bool-cases (contains l d)) [
      | inl old ↦
          rw (import_domain_lem, old)
            (record {
              now = l;
              listed = listed;
              joined = λ b. elim (String-discrete d b) [
                | yes e ↦ ground (arith, ap (contains l) e)
                | no ne ↦ ground arith
              ];
              kept = λ a c ha stored named. inl stored;
            })
      | inr new ↦ elim (Result-cases outcome.0) [
        | inr (e, p) ↦ absurd (ground (arith, import_domain_lem))
        | inl (u, p) ↦ rw (import_domain_lem, new) (step_new new p)
      ]
    ]

  -- The domains of a dump, one after the other.
  pub steps :
      (ds : List String) (t : Tally) (s : K.State) (l : List String)
      → All Accepts ds
      → K.get_managed_domains s ≡ ok l
      → (import_domains K certs ds t s).0.failed ≡ t.failed
      → Added ds s l (import_domains K certs ds t s).1
  unfolding import_domains
  steps [] t s l hs listed fine = record {
    now = l;
    listed = listed;
    joined = λ b. ground arith;
    kept = λ a c ha stored named. inl stored;
  }
  steps (d ∷ ds) t s l (hd, hs) listed fine =
      let (t', s') = import_domain K certs d t s in
      let bound : t'.failed ≡ t.failed =
        omega (arith, failed-import_domain K certs d t s, failed-import_domains K certs ds t' s') in
      let first : Added (d ∷ []) s l s' = step d hd t s l listed bound in
      let rest : Added ds s' first.now (import_domains K certs ds t' s').1 =
        steps ds t' s' first.now hs first.listed (omega (arith, bound)) in
      record {
        now = rest.now;
        listed = rest.listed;
        joined = λ b. ground (arith, rest.joined b, first.joined b);
        kept = λ a c ha stored named. elim (first.kept a c ha stored named) [
          | inl same ↦ elim (rest.kept a c ha same named) [
            | inl still ↦ inl still
            | inr (there, flipped) ↦ inr (ground arith, flipped)
          ]
          | inr (here, flipped) ↦ elim (rest.kept a (as_managed c) ha flipped named) [
            | inl still ↦ inr (ground arith, still)
            | inr (there, again) ↦ inr (ground arith, again)
          ]
        ];
      }
