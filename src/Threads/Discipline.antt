-- ===== src/Threads/Discipline.antt =====
-- Rely and guarantee: a property of the keystore that each allowed call keeps is kept by every
-- interleaving of threads that make allowed calls only, as long as what they read is as promised.
pub mod Programs
pub mod Orders
pub mod Pool
use go_acme_store.Common.{
  ℕ, zero, suc, String, Bool, true, false, List, [], ◌∷◌, Result, ok, err, All, if◌then◌else◌,
}
use go_acme_store.Keystore.{Keystore}
use go_acme_store.Keystore.Types.{CertAndKey}
use go_acme_store.Threads.{
  Call, account, get, leaf, store_cert, delete_cert, list_managed, add_domain, add_with_sans,
  remove_domain, is_managed, sans_of_domain, Answer, Thread, done, call, do_call, step, step_at,
  interleave,
}

-- The names of the domains that the threads may change, and the certificates that stand under them.
pub record Policy : Type 1 where
  pub Named : String → Type 0
  pub Good : String → CertAndKey → Type 0

module _ (P : Policy) where
  abbrev pub Allowed : Call → Type 0
  Allowed account = Unit
  Allowed (get d) = P.Named d
  Allowed (leaf d) = Unit
  Allowed (store_cert d c) = P.Named d × P.Good d c
  Allowed (delete_cert d) = P.Named d
  Allowed list_managed = Unit
  Allowed (add_domain d) = P.Named d
  Allowed (add_with_sans d sans) = P.Named d
  Allowed (remove_domain d) = Unit
  Allowed (is_managed d) = Unit
  Allowed (sans_of_domain d) = Unit

  abbrev pub GoodRead : String → Result CertAndKey → Type 0
  GoodRead d (ok c) = P.Good d c
  GoodRead d (err e) = Unit

  -- What a thread may rely on of an answer.
  abbrev pub Promised : (c : Call) → Answer c → Type 0
  Promised account r = Unit
  Promised (get d) r = GoodRead d r
  Promised (leaf d) r = Unit
  Promised (store_cert d c) r = Unit
  Promised (delete_cert d) r = Unit
  Promised list_managed r = Unit
  Promised (add_domain d) r = Unit
  Promised (add_with_sans d sans) r = Unit
  Promised (remove_domain d) r = Unit
  Promised (is_managed d) r = Unit
  Promised (sans_of_domain d) r = Unit

  -- The thread makes allowed calls only.
  abbrev pub Obeys : Thread → Type 0
  Obeys (done o) = Unit
  Obeys (call c k) = Allowed c × ((r : Answer c) → Promised c r → Obeys (k r))

  pub Obeys-if : (b : Bool) (p q : Thread) → Obeys p → Obeys q → Obeys (if b then p else q)
  Obeys-if true p q hp hq = hp
  Obeys-if false p q hp hq = hq

  module _ (K : Keystore) (Holds : K.State → Type 0) where
    -- The property is kept by the allowed calls, and gives what is promised.
    abbrev pub IsKept : Type 0
    IsKept =
        (c : Call) (s : K.State)
        → Allowed c
        → Holds s
        → Holds (do_call K c s).1 × Promised c (do_call K c s).0

    module _ (kept : IsKept) where
      step-Holds :
          (p : Thread) (s : K.State)
          → Obeys p
          → Holds s
          → Holds (step K p s).1 × Obeys (step K p s).0
      unfolding step
      step-Holds (done o) s obeys holds = (holds, tt)
      step-Holds (call c k) s (allowed, rest) holds =
          let (after, read) = kept c s allowed holds in (after, rest (do_call K c s).0 read)

      step_at-Holds :
          (i : ℕ) (ps : List Thread) (s : K.State)
          → All Obeys ps
          → Holds s
          → Holds (step_at K i ps s).1 × All Obeys (step_at K i ps s).0
      unfolding step_at
      step_at-Holds i [] s obeys holds = (holds, tt)
      step_at-Holds zero (p ∷ ps) s (obey, obeys) holds =
          let (after, obeyed) = step-Holds p s obey holds in (after, (obeyed, obeys))
      step_at-Holds (suc i) (p ∷ ps) s (obey, obeys) holds =
          let (after, obeyed) = step_at-Holds i ps s obeys holds in (after, (obey, obeyed))

      pub interleave-Holds :
          (is : List ℕ) (ps : List Thread) (s : K.State)
          → All Obeys ps
          → Holds s
          → Holds (interleave K is ps s).1
      unfolding interleave
      interleave-Holds [] ps s obeys holds = holds
      interleave-Holds (i ∷ is) ps s obeys holds =
          let (after, obeyed) = step_at-Holds i ps s obeys holds in
          interleave-Holds is (step_at K i ps s).0 (step_at K i ps s).1 obeyed after
