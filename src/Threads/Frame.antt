-- ===== src/Threads/Frame.antt =====
-- Threads that do not name a domain leave its certificate alone, however they interleave.
use go_acme_store.Common.{ℕ, String, ◌≡◌, ◌≢◌, refl, ◌∙◌, ap, List, [], Result, ok, err, All}
use go_acme_store.Keystore.{Keystore}
use go_acme_store.Keystore.Types.{CertAndKey}
use go_acme_store.Keystore.Laws.{IsLawful}
use go_acme_store.Acme.Renewal.{Env}
use go_acme_store.System.{Request}
use go_acme_store.Threads.{
  account, get, leaf, store_cert, delete_cert, list_managed, add_domain, add_with_sans,
  remove_domain, is_managed, sans_of_domain, do_call, interleave,
}
use go_acme_store.Threads.Discipline.{Policy, GoodRead, IsKept, interleave-Holds}
use go_acme_store.Threads.Discipline.Programs.{Fits}
use go_acme_store.Threads.Discipline.Pool.{RunsOver, pool, pool-Obeys}

-- Any certificate may be stored, but not for `a`.
abbrev pub others_of : (String → Type 0) → String → Policy
others_of Accepts a = record { Named = λ d. Accepts d × (a ≢ d); Good = λ d c. Unit {0} }

module _ (K : Keystore) {Accepts : String → Type 0} (L : IsLawful K Accepts) (a : String)
    (ha : Accepts a) where
  anything : (d : String) (r : Result CertAndKey) → GoodRead (others_of Accepts a) d r
  anything d (ok c) = tt
  anything d (err e) = tt

  module _ (r : Result CertAndKey) where
    abbrev Stands : K.State → Type 0
    Stands s = K.get_cert_and_key a s ≡ r

    kept : IsKept (others_of Accepts a) K Stands
    unfolding do_call
    kept account s hd h = (h, tt)
    kept (get d) s hd h = (h, anything d (K.get_cert_and_key d s))
    kept (leaf d) s hd h = (h, tt)
    kept (store_cert d c) s ((hd, ne), good) h = (L.get-store_ne a d c s ha hd ne ∙ h, tt)
    kept (delete_cert d) s (hd, ne) h = (L.get-delete_ne a d s ha hd ne ∙ h, tt)
    kept list_managed s hd h = (h, tt)
    kept (add_domain d) s (hd, ne) h = (
      ap (λ (x : Result (Unit {0}) × K.State). K.get_cert_and_key a x.1) (L.add_lem d s)
          ∙ L.get-add_ne a d [] s ha hd ne
          ∙ h,
      tt,
    )
    kept (add_with_sans d sans) s (hd, ne) h = (L.get-add_ne a d sans s ha hd ne ∙ h, tt)
    kept (remove_domain d) s hd h = (L.get-remove a d s ha ∙ h, tt)
    kept (is_managed d) s hd h = (h, tt)
    kept (sans_of_domain d) s hd h = (h, tt)

  -- Over a keystore that keeps its contract, where any number of requests and of runs of the
  -- daemon interleave, call by call, in any order: what the keystore returns for a domain that
  -- none of them names is the same after any number of calls. The names are accepted.
  pub interleave_frame :
      {Run : Type 0} (env : Run → String → Env) (is : List ℕ) (rs : List Request)
      (runs : List (Run × List String)) (s : K.State)
      → All (Fits (others_of Accepts a)) rs
      → RunsOver env (λ d. Accepts d × (a ≢ d)) runs
      → K.get_cert_and_key a (interleave K is (pool env rs runs) s).1 ≡ K.get_cert_and_key a s
  interleave_frame env is rs runs s fits named =
      interleave-Holds (others_of Accepts a) K (Stands (K.get_cert_and_key a s))
        (kept (K.get_cert_and_key a s)) is (pool env rs runs) s
        (pool-Obeys env (others_of Accepts a) (λ d c c' _ _. tt) (λ m d c _. tt) rs runs fits named)
        refl
