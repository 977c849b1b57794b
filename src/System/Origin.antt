-- ===== src/System/Origin.antt =====
-- Where a certificate in the keystore comes from, and which events spare the certificate of a
-- domain.
use mathlib.Core.Path.{subst}
use go_acme_store.Common.{
  String, ◌≡◌, ◌≢◌, ◌⊎◌, sym, some, List, [], ◌∷◌, ok, err, arith, Result-cases, Bool-cases, inl,
  inr, All,
}
use go_acme_store.Keystore.{Keystore}
use go_acme_store.Keystore.Types.{CertAndKey}
use go_acme_store.Keystore.Issued.{new_cert_and_key}
use go_acme_store.Acme.Renewal.{Env, Obtained, key_pem}
use go_acme_store.Acme.Renewal.Split.{
  failed, fresh, answered, renew_ask, IsAnswer, renew_ask-IsAnswer,
}
use go_acme_store.Acme.Solvers.{Solver}
use go_acme_store.Worker.{is_skipped, sans_for}
use go_acme_store.System.{
  Work, idle, ordering, storing, System, Event, request, opened, idle_begun, begin, ask, store,
  begun, go_on, written, perform, order_ask,
}
use go_acme_store.System.Kept.{SameKey}
use go_acme_store.System.Requests.{Spares}

module _ (K : Keystore) {Moment : Type 0} (env : Moment → Env) where
  -- The daemon goes to the provider at this moment.
  abbrev pub Asks : List (Event K env) → Moment → Type 0
  Asks [] m = ⊥
  Asks (request r ∷ es) m = Asks es m
  Asks (opened s ∷ es) m = Asks es m
  Asks (begin ∷ es) m = Asks es m
  Asks (ask n ∷ es) m = (n ≡ m) ⊎ Asks es m
  Asks (store ∷ es) m = Asks es m

  pub Asks-now :
      (e : Event K env) (es : List (Event K env)) (m : Moment) → Asks (e ∷ []) m → Asks (e ∷ es) m
  Asks-now (request r) es m h = absurd h
  Asks-now (opened s) es m h = absurd h
  Asks-now begin es m h = absurd h
  Asks-now (ask n) es m (inl p) = inl p
  Asks-now (ask n) es m (inr h) = absurd h
  Asks-now store es m h = absurd h

  pub Asks-later :
      (e : Event K env) (es : List (Event K env)) (m : Moment) → Asks es m → Asks (e ∷ es) m
  Asks-later (request r) es m h = h
  Asks-later (opened s) es m h = h
  Asks-later begin es m h = h
  Asks-later (ask n) es m h = inr h
  Asks-later store es m h = h

  -- `During` says at which moments the daemon went to the provider.
  module _ (During : Moment → Type 0) where
    -- A record that a renewal makes of the provider's answer to a request for this domain, and of
    -- the key of that request.
    pub record Issued (d : String) (c : CertAndKey) : Type 0 where
      pub moment : Moment
      pub asked : During moment
      pub solver : Solver
      pub acme_account : (env moment).provider.Account
      pub key : (env moment).pki.PrivateKey
      pub names : List String
      pub answer : Obtained
      pub others : List Obtained
      pub obtained :
          (env moment).provider.obtain solver acme_account key (d ∷ names) ≡ ok (answer ∷ others)
      pub made :
          new_cert_and_key (env moment).pki answer.chain_pem (key_pem K (env moment) key) answer.url
          ≡ ok c

    -- The certificate of `a` is `c` or was issued for it since, with other marks.
    pub record Survives (a : String) (c : CertAndKey) (s : K.State) : Type 0 where
      pub origin : CertAndKey
      pub now : CertAndKey
      pub found : K.get_cert_and_key a s ≡ ok now
      pub from : (origin ≡ c) ⊎ Issued a origin
      pub named : origin.common_name ≢ ""
      pub same : SameKey origin now

  -- What the provider has answered names a domain.
  abbrev pub NamesCert : Work K env → Type 0
  NamesCert idle = Unit
  NamesCert (ordering ds) = Unit
  NamesCert (storing m d (failed e) ds) = Unit
  NamesCert (storing m d fresh ds) = Unit
  NamesCert (storing m d (answered key (err e)) ds) = Unit
  NamesCert (storing m d (answered key (ok [])) ds) = Unit
  NamesCert (storing m d (answered key (ok (o ∷ os))) ds) =
      (c : CertAndKey)
      → new_cert_and_key (env m).pki o.chain_pem (key_pem K (env m) key) o.url ≡ ok c
      → c.common_name ≢ ""

  module _ (Accepts : String → Type 0) where
    -- The event takes nothing away from `a`: the names that it brings are accepted.
    abbrev pub SparesEvent : String → Event K env → System K env → Type 0
    SparesEvent a (request r) x = Spares Accepts a r
    SparesEvent a (opened s) x = Unit
    SparesEvent a begin x =
        (s : K.State) (l : List String)
        → x.ks ≡ some s
        → K.get_managed_domains s ≡ ok l
        → All Accepts l
    SparesEvent a (ask m) x = Unit
    SparesEvent a store x = NamesCert x.work

    abbrev pub SparesAll : String → List (Event K env) → System K env → Type 0
    SparesAll a [] x = Unit
    SparesAll a (e ∷ es) x = SparesEvent a e x × SparesAll a es (perform K env e x)

  order_ask-IsAnswer :
      (m : Moment) (d : String) (s : K.State) → IsAnswer K (env m) d (order_ask K env m d s)
  unfolding order_ask
  order_ask-IsAnswer m d s = elim (Bool-cases (is_skipped K (K.get_cert_and_key d s))) [
    | inl skipped ↦
        let e : order_ask K env m d s ≡ fresh = ground arith in
        subst (λ x. IsAnswer K (env m) d x) (sym e) tt
    | inr taken ↦
        let e : order_ask K env m d s ≡ renew_ask K (env m) d (sans_for K d s) s = ground arith in
        subst (λ x. IsAnswer K (env m) d x) (sym e)
          (renew_ask-IsAnswer K (env m) d (sans_for K d s) s)
  ]

  module _ (Accepts : String → Type 0) (During : Moment → Type 0) where
    -- The domains of a run are accepted, and what it waits for was asked of the provider.
    abbrev pub AcceptsWork : Work K env → Type 0
    AcceptsWork idle = Unit
    AcceptsWork (ordering ds) = All Accepts ds
    AcceptsWork (storing m d r ds) = Accepts d × During m × IsAnswer K (env m) d r × All Accepts ds

    begun_accepted :
        (s : K.State)
        → ((l : List String) → K.get_managed_domains s ≡ ok l → All Accepts l)
        → AcceptsWork (begun K env (some s))
    unfolding begun
    begun_accepted s h = elim (Result-cases (K.get_managed_domains s)) [
      | inl (l, p) ↦
          let eq : begun K env (some s) ≡ ordering l = ground arith in
          subst (λ w. AcceptsWork w) (sym eq) (h l p)
      | inr (e, p) ↦
          let eq : begun K env (some s) ≡ idle = ground arith in
          subst (λ w. AcceptsWork w) (sym eq) tt
    ]

    pub idle_begun_accepted :
        (s : K.State) (w : Work K env)
        → ((l : List String) → K.get_managed_domains s ≡ ok l → All Accepts l)
        → AcceptsWork w
        → AcceptsWork (idle_begun K env (some s) w)
    idle_begun_accepted s idle listed h = begun_accepted s listed
    idle_begun_accepted s (ordering ds) listed h = h
    idle_begun_accepted s (storing m d r ds) listed h = h

    pub go_on_accepted :
        (m : Moment) (s : K.State) (w : Work K env)
        → During m
        → AcceptsWork w
        → AcceptsWork (go_on K env m (some s) w)
    unfolding go_on
    go_on_accepted m s idle now h = tt
    go_on_accepted m s (ordering []) now h = tt
    go_on_accepted m s (ordering (d ∷ ds)) now (hd, hs) = (hd, now, order_ask-IsAnswer m d s, hs)
    go_on_accepted m s (storing n d r ds) now h = h

    pub written_accepted : (w : Work K env) → AcceptsWork w → AcceptsWork (written K env w)
    unfolding written
    written_accepted idle h = tt
    written_accepted (ordering ds) h = h
    written_accepted (storing n d r ds) (hd, now, answer, h) = h
