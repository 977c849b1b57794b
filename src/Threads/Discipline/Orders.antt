-- ===== src/Threads/Discipline/Orders.antt =====
-- A run of the daemon obeys a policy that looks at chains and keys only, where what it is issued is
-- good.
use go_acme_store.Common.{String, ◌≡◌, refl, List, [], ◌∷◌, Result, ok, err, All, not, ◌==◌}
use go_acme_store.Crypto.Certificates.{check_if_cert_needs_update}
use go_acme_store.Keystore.Types.{CertAndKey}
use go_acme_store.Keystore.Issued.{new_cert_and_key}
use go_acme_store.Acme.Solvers.{Solver, get_solver}
use go_acme_store.Acme.Renewal.{Env, Obtained, failed_with}
use go_acme_store.System.Kept.{SameKey}
use go_acme_store.Threads.{Thread}
use go_acme_store.Threads.Orders.{
  mark_found, mark, account_of, pem_of, store_made, keep_obtained, ask_provider, ask_solved,
  renew_existing, renew, after_renewal, skips, order, orders,
}
use go_acme_store.Threads.Discipline.{Policy, GoodRead, Obeys, Obeys-if}

-- The record that a renewal makes of an answer to a request for the domain, with the key of that
-- request.
pub record IssuedFor (env : Env) (d : String) (c : CertAndKey) : Type 0 where
  pub solver : Solver
  pub acme_account : env.provider.Account
  pub key : env.pki.PrivateKey
  pub names : List String
  pub answer : Obtained
  pub others : List Obtained
  pub obtained : env.provider.obtain solver acme_account key (d ∷ names) ≡ ok (answer ∷ others)
  pub made : new_cert_and_key env.pki answer.chain_pem (pem_of env key) answer.url ≡ ok c

module _ (P : Policy)
    (remark : (d : String) (c c' : CertAndKey) → SameKey c c' → P.Good d c → P.Good d c') where
  mark_found-Obeys :
      (d e : String) (k : Thread) (r : Result CertAndKey)
      → P.Named d
      → Obeys P k
      → GoodRead P d r
      → Obeys P (mark_found d e k r)
  unfolding mark_found
  mark_found-Obeys d e k (err m) hd hk good = hk
  mark_found-Obeys d e k (ok c) hd hk good =
      let same : SameKey c (failed_with e c) =
        unfold failed_with in record { name = refl; chain = refl; key = refl } in
      Obeys-if P (c.common_name == "") _ _ hk
        ((hd, remark d c (failed_with e c) same good), λ r _. hk)

  mark-Obeys : (d e : String) (k : Thread) → P.Named d → Obeys P k → Obeys P (mark d e k)
  unfolding mark
  mark-Obeys d e k hd hk = (hd, λ r good. mark_found-Obeys d e k r hd hk good)

  after_renewal-Obeys :
      (d : String) (k : Thread) (r : Result (Unit {0}))
      → P.Named d
      → Obeys P k
      → Obeys P (after_renewal d k r)
  after_renewal-Obeys d k (ok _) hd hk = hk
  after_renewal-Obeys d k (err e) hd hk = mark-Obeys d e k hd hk

  module _ (env : Env) (d : String) (hd : P.Named d)
      (good : (c : CertAndKey) → IssuedFor env d c → P.Good d c) (k : Result (Unit {0}) → Thread)
      (hk : (r : Result (Unit {0})) → Obeys P (k r)) where
    store_made-Obeys :
        (r : Result CertAndKey)
        → ((c : CertAndKey) → r ≡ ok c → P.Good d c)
        → Obeys P (store_made env d k r)
    unfolding store_made
    store_made-Obeys (err e) made = hk _
    store_made-Obeys (ok c) made = ((hd, made c refl), λ r _. hk _)

    keep_obtained-Obeys :
        (solver : Solver) (acme_account : env.provider.Account) (key : env.pki.PrivateKey)
        (names : List String) (r : Result (List Obtained))
        → env.provider.obtain solver acme_account key (d ∷ names) ≡ r
        → Obeys P (keep_obtained env d k key r)
    unfolding keep_obtained
    keep_obtained-Obeys solver acme_account key names (err e) p = mark-Obeys d e _ hd (hk _)
    keep_obtained-Obeys solver acme_account key names (ok []) p = mark-Obeys d "<nil>" _ hd (hk _)
    keep_obtained-Obeys solver acme_account key names (ok (o ∷ os)) p = store_made-Obeys _ (λ c q.
        good c (record {
          solver = solver;
          acme_account = acme_account;
          key = key;
          names = names;
          answer = o;
          others = os;
          obtained = p;
          made = q;
        }))

    ask_provider-Obeys :
        (sans : List String) (solver : Solver) (a : Result env.provider.Account)
        (made : Result env.pki.PrivateKey)
        → Obeys P (ask_provider env d k sans solver a made)
    unfolding ask_provider
    ask_provider-Obeys sans solver (err e) made = hk _
    ask_provider-Obeys sans solver (ok a) (err e) = hk _
    ask_provider-Obeys sans solver (ok a) (ok key) = keep_obtained-Obeys solver a key sans _ refl

    ask_solved-Obeys :
        (sans : List String) (r : Result Solver) → Obeys P (ask_solved env d k sans r)
    unfolding ask_solved
    ask_solved-Obeys sans (err e) = hk _
    ask_solved-Obeys sans (ok solver) =
        (tt, λ saved _. ask_provider-Obeys sans solver (account_of env saved) env.new_key)

    renew_existing-Obeys :
        (sans : List String) (r : Result String) → Obeys P (renew_existing env d k sans r)
    unfolding renew_existing
    renew_existing-Obeys sans (err e) = hk _
    renew_existing-Obeys sans (ok pem) =
        Obeys-if P (not (check_if_cert_needs_update env.pki env.now pem 21)) _ _ (hk _)
          (ask_solved-Obeys sans (get_solver env.viper))

  order-Obeys :
      (env : Env) (d : String) (k : Thread)
      → P.Named d
      → ((c : CertAndKey) → IssuedFor env d c → P.Good d c)
      → Obeys P k
      → Obeys P (order env d k)
  unfolding order renew
  order-Obeys env d k hd good hk = (
    hd,
    λ r _. Obeys-if P (skips r) _ _ hk (
      tt,
      λ sans _. (
        tt,
        λ existing _.
            renew_existing-Obeys env d hd good (after_renewal d k)
              (λ r. after_renewal-Obeys d k r hd hk) sans existing,
      ),
    ),
  )

  pub orders-Obeys :
      (env : String → Env) (ds : List String)
      → All P.Named ds
      → ((d : String) (c : CertAndKey) → IssuedFor (env d) d c → P.Good d c)
      → Obeys P (orders env ds)
  unfolding orders
  orders-Obeys env [] hs good = tt
  orders-Obeys env (d ∷ ds) (hd, hs) good =
      order-Obeys (env d) d (orders env ds) hd (good d) (orders-Obeys env ds hs good)
