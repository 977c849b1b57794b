-- ===== src/Threads/Discipline/Programs.antt =====
-- The handlers and the runs of the daemon obey a policy that looks at chains and keys only.
use go_acme_store.Common.{
  ◌+◌, Bool, String, refl, false, none, some, List, [], ◌∷◌, Result, ok, err, All, ◌==◌,
}
use go_acme_store.Common.Dict.{Dict, lookup}
use go_acme_store.Keystore.Types.{CertAndKey}
use go_acme_store.Api.Backup.{Tally, zero_tally, count_result, sans_of}
use go_acme_store.System.{Request, add, remove, delete, restore}
use go_acme_store.System.Kept.{SameKey}
use go_acme_store.Threads.{Thread}
use go_acme_store.Threads.Handlers.{
  serve_add, unmark_found, unmark, soft_remove, serve_remove, delete_looked_up, serve_delete,
  restore_certs, restore_add, restore_checked, restore_domains, restore_all, serve_restore, serve,
}
use go_acme_store.Threads.Discipline.{Policy, GoodRead, Obeys, Obeys-if}

module _ (P : Policy) where
  abbrev pub AllGood : Dict CertAndKey → Type 0
  AllGood [] = Unit
  AllGood ((d, c) ∷ rest) = P.Named d × P.Good d c × AllGood rest

  -- The names of the request are allowed, and the certificates that it brings are good.
  abbrev pub Fits : Request → Type 0
  Fits (add none) = Unit
  Fits (add (some q)) = P.Named q.domain
  Fits (remove d flag) = P.Named d
  Fits (delete d) = P.Named d
  Fits (restore (err e)) = Unit
  Fits (restore (ok dump)) = AllGood dump.certificates × All P.Named dump.domains

module _ (P : Policy)
    (remark : (d : String) (c c' : CertAndKey) → SameKey c c' → P.Good d c → P.Good d c') where
  unmark_found-Obeys :
      (d : String) (k : Thread) (r : Result CertAndKey)
      → P.Named d
      → Obeys P k
      → GoodRead P d r
      → Obeys P (unmark_found d k r)
  unfolding unmark_found
  unmark_found-Obeys d k (err e) hd hk good = hk
  unmark_found-Obeys d k (ok c) hd hk good =
      let c' : CertAndKey = record c { managed = false } in
      let same : SameKey c c' = record { name = refl; chain = refl; key = refl } in
      Obeys-if P (c.common_name == "") _ _ hk ((hd, remark d c c' same good), λ r _. hk)

  soft_remove-Obeys : (d : String) (r : Result (Unit {0})) → P.Named d → Obeys P (soft_remove d r)
  unfolding soft_remove unmark
  soft_remove-Obeys d (err e) hd = tt
  soft_remove-Obeys d (ok _) hd = (hd, λ r good. unmark_found-Obeys d _ r hd tt good)

  delete_looked_up-Obeys :
      (d : String) (r : Result CertAndKey) → P.Named d → Obeys P (delete_looked_up d r)
  unfolding delete_looked_up
  delete_looked_up-Obeys d (err e) hd = tt
  delete_looked_up-Obeys d (ok c) hd = Obeys-if P c.managed _ _ tt (hd, λ r _. tt)

  restore_certs-Obeys :
      (certs : Dict CertAndKey) (t : Tally) (k : Tally → Thread)
      → AllGood P certs
      → ((t : Tally) → Obeys P (k t))
      → Obeys P (restore_certs certs t k)
  unfolding restore_certs
  restore_certs-Obeys [] t k good hk = hk t
  restore_certs-Obeys ((d, c) ∷ rest) t k (hd, good, goods) hk =
      ((hd, good), λ r _. restore_certs-Obeys rest (count_result r t) k goods hk)

  restore_add-Obeys :
      (d : String) (sans : List String) (t : Tally) (k : Tally → Thread)
      → P.Named d
      → ((t : Tally) → Obeys P (k t))
      → Obeys P (restore_add d sans t k)
  unfolding restore_add
  restore_add-Obeys d [] t k hd hk = (hd, λ r _. hk (count_result r t))
  restore_add-Obeys d (san ∷ sans) t k hd hk = (hd, λ r _. hk (count_result r t))

  restore_checked-Obeys :
      (certs : Dict CertAndKey) (d : String) (t : Tally) (k : Tally → Thread) (r : Result Bool)
      → P.Named d
      → ((t : Tally) → Obeys P (k t))
      → Obeys P (restore_checked certs d t k r)
  unfolding restore_checked
  restore_checked-Obeys certs d t k (err e) hd hk = hk (record t { failed = t.failed + 1 })
  restore_checked-Obeys certs d t k (ok managed) hd hk =
      Obeys-if P managed _ _ (hk t) (restore_add-Obeys d (sans_of (lookup d certs)) t k hd hk)

  restore_domains-Obeys :
      (certs : Dict CertAndKey) (ds : List String) (t : Tally) (k : Tally → Thread)
      → All P.Named ds
      → ((t : Tally) → Obeys P (k t))
      → Obeys P (restore_domains certs ds t k)
  unfolding restore_domains
  restore_domains-Obeys certs [] t k hs hk = hk t
  restore_domains-Obeys certs (d ∷ ds) t k (hd, hs) hk = (
    tt,
    λ r _.
        restore_checked-Obeys certs d t (λ x. restore_domains certs ds x k) r hd
          (λ x. restore_domains-Obeys certs ds x k hs hk),
  )

  pub serve-Obeys : (r : Request) → Fits P r → Obeys P (serve r)
  unfolding serve serve_add serve_remove serve_delete serve_restore restore_all
  serve-Obeys (add none) fits = tt
  serve-Obeys (add (some q)) fits = Obeys-if P (q.domain == "") _ _ tt (fits, λ r _. tt)
  serve-Obeys (remove d flag) hd = Obeys-if P (d == "") _ _ tt (
    tt,
    λ removed _. Obeys-if P (flag == "true") _ _ (hd, λ r _. tt) (soft_remove-Obeys d removed hd),
  )
  serve-Obeys (delete d) hd = Obeys-if P (d == "") _ _ tt (hd, λ r _. delete_looked_up-Obeys d r hd)
  serve-Obeys (restore (err e)) fits = tt
  serve-Obeys (restore (ok dump)) (certs, names) =
      Obeys-if P (dump.version == "1.0") _ _
        (restore_certs-Obeys dump.certificates zero_tally _ certs
          (λ c. restore_domains-Obeys dump.certificates dump.domains zero_tally _ names (λ d. tt)))
        tt
