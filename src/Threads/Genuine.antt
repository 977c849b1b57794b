-- ===== src/Threads/Genuine.antt =====
-- Chain and key of a certificate belong together, and to its domain, however the threads interleave.
use mathlib.Core.Path.{subst}
use go_acme_store.Common.{
  ℕ, String, String-discrete, ◌≡◌, ◌≢◌, ◌⊎◌, refl, sym, ap, ◌∙◌, List, [], Result, ok, err, arith,
  inl, inr, All,
}
use go_acme_store.Keystore.{Keystore}
use go_acme_store.Keystore.Types.{CertAndKey, no_cert}
use go_acme_store.Keystore.Adoption.{placeholder}
use go_acme_store.Keystore.Laws.{IsLawful, IsReliable, as_managed}
use go_acme_store.Acme.Renewal.{Env}
use go_acme_store.System.{Request}
use go_acme_store.System.Kept.{SameKey, same_key, SameKey-trans}
use go_acme_store.Threads.{
  account, get, leaf, store_cert, delete_cert, list_managed, add_domain, add_with_sans,
  remove_domain, is_managed, sans_of_domain, do_call, interleave,
}
use go_acme_store.Threads.Discipline.{Policy, GoodRead, IsKept, interleave-Holds}
use go_acme_store.Threads.Discipline.Programs.{Fits}
use go_acme_store.Threads.Discipline.Orders.{IssuedFor}
use go_acme_store.Threads.Discipline.Pool.{RunsOver, pool, pool-Obeys}

-- Every deletion succeeds.
abbrev pub Deletes : Keystore → Type 0
Deletes K = (d : String) (s : K.State) → (K.delete_cert_and_key d s).0 ≡ ok tt

-- Neither chain nor key.
abbrev pub IsBlank : CertAndKey → Type 0
IsBlank c = (c.cert_chain_pem ≡ "") × (c.private_key_pem ≡ "")

-- `env m d` is what a renewal of the domain `d` meets in the run `m`; `Old` says which certificates
-- a domain had, or was given by an import.
module _ {Run : Type 0} (env : Run → String → Env) (Old : String → CertAndKey → Type 0) where
  -- Name, chain and key are those of one certificate that the domain had, of one answer of the
  -- provider to a request for this domain with this key, or blank.
  pub record Genuine (d : String) (c : CertAndKey) : Type 0 where
    pub origin : CertAndKey
    pub from : Old d origin ⊎ ((m : Run) × IssuedFor (env m d) d origin) ⊎ IsBlank origin
    pub same : SameKey origin c

  remark : (d : String) (c c' : CertAndKey) → SameKey c c' → Genuine d c → Genuine d c'
  remark d c c' same g = record {
    origin = g.origin;
    from = g.from;
    same = SameKey-trans g.origin c c' g.same same;
  }

  blank : (d : String) (c : CertAndKey) → IsBlank c → Genuine d c
  blank d c h = record { origin = c; from = inr (inr h); same = same_key c }

  issued : (m : Run) (d : String) (c : CertAndKey) → IssuedFor (env m d) d c → Genuine d c
  issued m d c h = record { origin = c; from = inr (inl (m, h)); same = same_key c }

  abbrev pub genuine : (String → Type 0) → Policy
  genuine Accepts = record { Named = Accepts; Good = Genuine }

  -- Every certificate in the keystore is genuine.
  abbrev pub AllGenuine : (K : Keystore) → (String → Type 0) → K.State → Type 0
  AllGenuine K Accepts s =
      (a : String) (c : CertAndKey) → Accepts a → K.get_cert_and_key a s ≡ ok c → Genuine a c

  module _ (K : Keystore) {Accepts : String → Type 0} (L : IsLawful K Accepts)
      (reliable : IsReliable K) (deletes : Deletes K) where
    module _ (d : String) (hd : Accepts d) (s : K.State) (before : AllGenuine K Accepts s) where
      written :
          (t : K.State)
          → ((a : String) → Accepts a → a ≢ d → K.get_cert_and_key a t ≡ K.get_cert_and_key a s)
          → ((c : CertAndKey) → K.get_cert_and_key d t ≡ ok c → Genuine d c)
          → AllGenuine K Accepts t
      written t others here a c ha stored = elim (String-discrete a d) [
        | no ne ↦ before a c ha (sym (others a ha ne) ∙ stored)
        | yes e ↦
            subst (λ x. Genuine x c) (sym e)
              (here c (sym (ap (λ x. K.get_cert_and_key x t) e) ∙ stored))
      ]

      -- The domain has the certificate `c` now.
      becomes :
          (t : K.State) (c : CertAndKey)
          → ((a : String) → Accepts a → a ≢ d → K.get_cert_and_key a t ≡ K.get_cert_and_key a s)
          → K.get_cert_and_key d t ≡ ok c
          → Genuine d c
          → AllGenuine K Accepts t
      becomes t c others now good =
          written t others
            (λ c' p. let e : c ≡ c' = ground arith in subst (λ x. Genuine d x) e good)

      add-Genuine :
          (sans : List String) → AllGenuine K Accepts (K.add_managed_domain_with_sans d sans s).1
      add-Genuine sans =
          let t : K.State = (K.add_managed_domain_with_sans d sans s).1 in
          let others =
            λ (a : String) (ha : Accepts a) (ne : a ≢ d). L.get-add_ne a d sans s ha hd ne in
          elim (L.get-add_cases d sans s reliable hd) [
            | inl same ↦ written t others (λ c p. before d c hd (sym same ∙ p))
            | inr (inl (c, was, now)) ↦ becomes t (as_managed c) others now (
                remark d c (as_managed c) (record { name = refl; chain = refl; key = refl })
                  (before d c hd was))
            | inr (inr now) ↦
                becomes t (placeholder d sans) others now
                  (blank d (placeholder d sans) (refl, refl))
          ]

      store-Genuine :
          (c : CertAndKey) → Genuine d c → AllGenuine K Accepts (K.store_cert_and_key d c s).1
      store-Genuine c good =
          becomes _ c (λ a ha ne. L.get-store_ne a d c s ha hd ne)
            (L.get-store d c s (reliable d c s)) good

      delete-Genuine : AllGenuine K Accepts (K.delete_cert_and_key d s).1
      delete-Genuine =
          becomes _ no_cert (λ a ha ne. L.get-delete_ne a d s ha hd ne)
            (L.get-delete d s (deletes d s)) (blank d no_cert (refl, refl))

    read :
        (d : String) (r : Result CertAndKey)
        → ((c : CertAndKey) → r ≡ ok c → Genuine d c)
        → GoodRead (genuine Accepts) d r
    read d (ok c) h = h c refl
    read d (err e) h = tt

    kept : IsKept (genuine Accepts) K (AllGenuine K Accepts)
    unfolding do_call
    kept account s hd before = (before, tt)
    kept (get d) s hd before = (before, read d (K.get_cert_and_key d s) (λ c p. before d c hd p))
    kept (leaf d) s hd before = (before, tt)
    kept (store_cert d c) s (hd, good) before = (store-Genuine d hd s before c good, tt)
    kept (delete_cert d) s hd before = (delete-Genuine d hd s before, tt)
    kept list_managed s hd before = (before, tt)
    kept (add_domain d) s hd before = (
      subst (λ x. AllGenuine K Accepts x.1) (sym (L.add_lem d s)) (add-Genuine d hd s before []),
      tt,
    )
    kept (add_with_sans d sans) s hd before = (add-Genuine d hd s before sans, tt)
    kept (remove_domain d) s hd before =
        (λ a c ha p. before a c ha (sym (L.get-remove a d s ha) ∙ p), tt)
    kept (is_managed d) s hd before = (before, tt)
    kept (sans_of_domain d) s hd before = (before, tt)

    -- Over a keystore that keeps its contract, whose stores and deletions succeed, where any
    -- number of requests and of runs of the daemon interleave, call by call, in any order: each
    -- certificate of a domain with an accepted name has name, chain and key of one certificate
    -- that the domain had or was given by an import, or of one answer of the provider to a
    -- request for this domain with this key, or it has neither chain nor key. If this holds at
    -- the start, it holds after any number of calls. The names in the requests and in the runs
    -- are accepted, and the imported certificates are of this kind.
    pub interleave-AllGenuine :
        (is : List ℕ) (rs : List Request) (runs : List (Run × List String)) (s : K.State)
        → All (Fits (genuine Accepts)) rs
        → RunsOver env Accepts runs
        → AllGenuine K Accepts s
        → AllGenuine K Accepts (interleave K is (pool env rs runs) s).1
    interleave-AllGenuine is rs runs s fits named before =
        interleave-Holds (genuine Accepts) K (AllGenuine K Accepts) kept is (pool env rs runs) s
          (pool-Obeys env (genuine Accepts) remark issued rs runs fits named) before
