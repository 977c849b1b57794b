-- ===== src/Threads/Discipline/Pool.antt =====
-- The threads of a server: requests, and runs of the daemon.
use go_acme_store.Common.{String, List, [], ◌∷◌, ◌++◌, map, All, All-append}
use go_acme_store.Keystore.Types.{CertAndKey}
use go_acme_store.Acme.Renewal.{Env}
use go_acme_store.System.{Request}
use go_acme_store.System.Kept.{SameKey}
use go_acme_store.Threads.{Thread}
use go_acme_store.Threads.Handlers.{serve}
use go_acme_store.Threads.Orders.{orders}
use go_acme_store.Threads.Discipline.{Policy, Obeys}
use go_acme_store.Threads.Discipline.Programs.{Fits, serve-Obeys}
use go_acme_store.Threads.Discipline.Orders.{IssuedFor, orders-Obeys}

-- `env m d` is what a renewal of the domain `d` meets in the run `m`.
module _ {Run : Type 0} (env : Run → String → Env) where
  -- A run of the daemon over a list of domains.
  abbrev pub run_of : Run × List String → Thread
  run_of (m, ds) = orders (env m) ds

  abbrev pub pool : List Request → List (Run × List String) → List Thread
  pool rs runs = map serve rs ++ map run_of runs

  -- The domains of each run are named.
  abbrev pub RunsOver : (String → Type 0) → List (Run × List String) → Type 0
  RunsOver Named [] = Unit
  RunsOver Named ((m, ds) ∷ runs) = All Named ds × RunsOver Named runs

  module _ (P : Policy)
      (remark : (d : String) (c c' : CertAndKey) → SameKey c c' → P.Good d c → P.Good d c')
      (good : (m : Run) (d : String) (c : CertAndKey) → IssuedFor (env m d) d c → P.Good d c) where
    requests-Obeys : (rs : List Request) → All (Fits P) rs → All (Obeys P) (map serve rs)
    requests-Obeys [] fits = tt
    requests-Obeys (r ∷ rs) (fit, fits) = (serve-Obeys P remark r fit, requests-Obeys rs fits)

    runs-Obeys :
        (runs : List (Run × List String)) → RunsOver P.Named runs → All (Obeys P) (map run_of runs)
    runs-Obeys [] named = tt
    runs-Obeys ((m, ds) ∷ runs) (h, named) =
        (orders-Obeys P remark (env m) ds h (good m), runs-Obeys runs named)

    pub pool-Obeys :
        (rs : List Request) (runs : List (Run × List String))
        → All (Fits P) rs
        → RunsOver P.Named runs
        → All (Obeys P) (pool rs runs)
    pool-Obeys rs runs fits named =
        All-append (Obeys P) (map serve rs) (map run_of runs) (requests-Obeys rs fits)
          (runs-Obeys runs named)
