-- ===== src/Threads.antt =====
-- The goroutines of cmd/acme-store over the one global keystore: a handler of httpserver.go runs on
-- the goroutine of its request, `doAcmeOrders` on that of the daemon or of a trigger. No lock spans
-- two calls of the keystore, so that a thread may be stopped between any two of its calls. What a
-- thread still has to do is a tree of calls, and a schedule says whose call is next.
pub mod Handlers
pub mod Orders
pub mod Alone
pub mod Discipline
pub mod Genuine
pub mod Frame
pub mod LostUpdate
use go_acme_store.Common.{ℕ, zero, suc, String, Bool, List, [], ◌∷◌, Result, ok, err}
use go_acme_store.Keystore.{Keystore}
use go_acme_store.Keystore.Types.{AcmeAccount, CertAndKey}
use go_acme_store.Api.Response.{Response}
use go_acme_store.Worker.{sans_for}

-- The calls of the keystore that the threads make.
pub data Call : Type 0 where
  account : Call
  get : String → Call
  leaf : String → Call
  store_cert : String → CertAndKey → Call
  delete_cert : String → Call
  list_managed : Call
  add_domain : String → Call
  add_with_sans : String → List String → Call
  remove_domain : String → Call
  is_managed : String → Call
  -- the type assertion of worker.go, with the look-up that it is made for
  sans_of_domain : String → Call

abbrev pub Answer : Call → Type 0
Answer account = Result AcmeAccount
Answer (get d) = Result CertAndKey
Answer (leaf d) = Result String
Answer (store_cert d c) = Result (Unit {0})
Answer (delete_cert d) = Result (Unit {0})
Answer list_managed = Result (List String)
Answer (add_domain d) = Result (Unit {0})
Answer (add_with_sans d sans) = Result (Unit {0})
Answer (remove_domain d) = Result (Unit {0})
Answer (is_managed d) = Result Bool
Answer (sans_of_domain d) = List String

-- A handler ends with its response, a run of the daemon with none.
pub data Outcome : Type 0 where
  replied : Response → Outcome
  finished : Outcome

pub data Thread : Type 0 where
  done : Outcome → Thread
  call : (c : Call) → (Answer c → Thread) → Thread

module _ (K : Keystore) where
  unfoldable pub do_call : (c : Call) → K.State → Answer c × K.State
  do_call account s = (K.get_acme_account s, s)
  do_call (get d) s = (K.get_cert_and_key d s, s)
  do_call (leaf d) s = (K.get_leaf_cert d s, s)
  do_call (store_cert d c) s = K.store_cert_and_key d c s
  do_call (delete_cert d) s = K.delete_cert_and_key d s
  do_call list_managed s = (K.get_managed_domains s, s)
  do_call (add_domain d) s = K.add_managed_domain d s
  do_call (add_with_sans d sans) s = K.add_managed_domain_with_sans d sans s
  do_call (remove_domain d) s = K.remove_managed_domain d s
  do_call (is_managed d) s = (K.is_managed_domain d s, s)
  do_call (sans_of_domain d) s = (sans_for K d s, s)

  -- A thread that nobody disturbs.
  unfoldable pub alone : Thread → K.State → Outcome × K.State
  unfolding do_call
  alone (done o) s = (o, s)
  alone (call c k) s = let (r, s') = do_call c s in alone (k r) s'

  -- The next call of a thread.
  unfoldable pub step : Thread → K.State → Thread × K.State
  unfolding do_call
  step (done o) s = (done o, s)
  step (call c k) s = let (r, s') = do_call c s in (k r, s')

  -- The next call of the thread with this number.
  unfoldable pub step_at : ℕ → List Thread → K.State → List Thread × K.State
  unfolding step
  step_at i [] s = ([], s)
  step_at zero (p ∷ ps) s = let (p', s') = step p s in (p' ∷ ps, s')
  step_at (suc i) (p ∷ ps) s = let (ps', s') = step_at i ps s in (p ∷ ps', s')

  unfoldable pub interleave : List ℕ → List Thread → K.State → List Thread × K.State
  unfolding step_at
  interleave [] ps s = (ps, s)
  interleave (i ∷ is) ps s = let (ps', s') = step_at i ps s in interleave is ps' s'
