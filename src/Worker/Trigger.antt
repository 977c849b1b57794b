-- ===== src/Worker/Trigger.antt =====
-- The channel of `triggerAcmeOrders` and the loop of `acmeDaemon`: `triggerChan` holds at most one
-- value, a send to a full channel is dropped, and the loop takes the value before a run.
use go_acme_store.Common.{
  ℕ, ◌+◌, ◌≤◌, ◌≡◌, refl, Bool, true, false, arith, if◌then◌else◌, ◌⊎◌, inl, inr, Bool-cases,
}

-- The daemon's part of the program's state. The counters are the observer's.
pub record Daemon : Type 0 where
  -- `triggerChan` holds a value
  pub pending : Bool
  -- inside `doAcmeOrders`
  pub running : Bool
  -- calls of `triggerAcmeOrders` so far
  pub triggers : ℕ
  -- runs begun for a trigger so far
  pub manual_runs : ℕ
  -- all runs begun so far
  pub runs : ℕ

-- When the daemon starts it does its initial run.
abbrev pub daemon_start : Daemon
daemon_start = record { pending = false; running = true; triggers = 0; manual_runs = 0; runs = 1 }

unfoldable pub trigger_acme_orders : Daemon → Daemon
trigger_acme_orders d = record d { pending = true; triggers = d.triggers + 1 }

-- What can happen next: a handler triggers; the loop takes the value of the channel, or its ticker
-- fires, and begins a run; a run ends.
pub data Step (d : Daemon) : Daemon → Type 0 where
  trigger : Step d (trigger_acme_orders d)
  take :
      d.running ≡ false
      → d.pending ≡ true
      → Step d (record d {
        pending = false;
        running = true;
        manual_runs = d.manual_runs + 1;
        runs = d.runs + 1;
      })
  tick : d.running ≡ false → Step d (record d { running = true; runs = d.runs + 1 })
  finish : d.running ≡ true → Step d (record d { running = false })

pub data Reach (d : Daemon) : Daemon → Type 0 where
  here : Reach d d
  next : {e f : Daemon} → Reach d e → Step e f → Reach d f

-- Triggers that meet a full channel are merged: a manual run takes a trigger of its own.
pub record IsCounted (d : Daemon) : Type 0 where
  pub taken : d.manual_runs + (if d.pending then 1 else 0) ≤ d.triggers
  pub within : d.manual_runs + 1 ≤ d.runs

Step-IsCounted : {d e : Daemon} → Step d e → IsCounted d → IsCounted e
Step-IsCounted trigger v = unfold trigger_acme_orders in ground arith
Step-IsCounted (take idle full) v = ground arith
Step-IsCounted (tick idle) v = ground arith
Step-IsCounted (finish busy) v = ground arith

-- In every state that the daemon reaches, there were at most as many manual runs as triggers, one
-- fewer while a trigger waits.
pub reached-IsCounted : {d : Daemon} → Reach daemon_start d → IsCounted d
reached-IsCounted here = omega arith
reached-IsCounted (next r s) = Step-IsCounted s (reached-IsCounted r)

-- A trigger waits, or a manual run was begun after the first `n`.
pub record Answered (n : ℕ) (d : Daemon) : Type 0 where
  pub answer : (d.pending ≡ true) ⊎ (n + 1 ≤ d.manual_runs)
  pub grown : n ≤ d.manual_runs

Step-Answered : {n : ℕ} {d e : Daemon} → Step d e → Answered n d → Answered n e
Step-Answered trigger v =
    unfold trigger_acme_orders in record { answer = inl refl; grown = v.grown }
Step-Answered (take idle full) v = record { answer = inr (omega arith); grown = omega arith }
Step-Answered (tick idle) v = record { answer = v.answer; grown = v.grown }
Step-Answered (finish busy) v = record { answer = v.answer; grown = v.grown }

-- After a trigger, whatever happens next, a trigger waits or a manual run was begun since: no
-- trigger is lost.
pub trigger-Answered :
    (d : Daemon) {e : Daemon} → Reach (trigger_acme_orders d) e → Answered d.manual_runs e
trigger-Answered d here =
    unfold trigger_acme_orders in record { answer = inl refl; grown = omega arith }
trigger-Answered d (next r s) = Step-Answered s (trigger-Answered d r)

abbrev served : Daemon → Daemon
served d = record d {
  pending = false;
  running = true;
  manual_runs = d.manual_runs + 1;
  runs = d.runs + 1;
}

-- From every state in which a trigger waits, the daemon can reach one in which a manual run has
-- taken it.
pub trigger_served :
    (d : Daemon)
    → d.pending ≡ true
    → (e : Daemon) × Reach d e
      × (e.running ≡ true)
      × (e.pending ≡ false)
      × (e.manual_runs ≡ d.manual_runs + 1)
trigger_served d full = elim (Bool-cases d.running) [
  | inl busy ↦ (served d, next (next here (finish busy)) (take refl full), refl, refl, refl)
  | inr idle ↦ (served d, next here (take idle full), refl, refl, refl)
]
