-- ===== src/Keystore/Memory/Invariant.antt =====
-- What holds of a memory keystore in every state that calls can reach.
use go_acme_store.Common.{
  String, List, [], ◌∷◌, arith, Distinct, append-Distinct, without-Distinct, Option-cases, inl, inr,
}
use go_acme_store.Common.Dict.{keys, lookup, insert-Distinct, erase-Distinct}
use go_acme_store.Keystore.Types.{AcmeAccount}
use go_acme_store.Keystore.Memory.{
  Memory, new_memory_keystore, flip_to_managed, store_cert_and_key, delete_cert_and_key,
}
use go_acme_store.Keystore.Laws.{as_managed}
use go_acme_store.Keystore.Memory.Laws.{remove_lem, add_lem}
use go_acme_store.Keystore.Memory.Refinement.{Command, store, delete, add, remove, perform, run}

-- No domain is managed twice, and no certificate is listed twice.
pub record IsValid (m : Memory) : Type 0 where
  pub managed : Distinct m.managed_domains
  pub stored : Distinct (keys m.cert_and_keys)

flip-Distinct :
    (d : String) (m : Memory) → IsValid m → Distinct (keys (flip_to_managed d m.cert_and_keys))
unfolding flip_to_managed
flip-Distinct d m v = elim (Option-cases (lookup d m.cert_and_keys)) [
  | inl e ↦ ground (arith, v.stored)
  | inr (c, e) ↦ ground (arith, insert-Distinct d (as_managed c) m.cert_and_keys v.stored)
]

pub perform-IsValid : (c : Command) (m : Memory) → IsValid m → IsValid (perform c m).1
unfolding perform
perform-IsValid (store d c) m v =
    unfold store_cert_and_key in
    record { managed = v.managed; stored = insert-Distinct d c m.cert_and_keys v.stored }
perform-IsValid (delete d) m v =
    unfold delete_cert_and_key in
    record { managed = v.managed; stored = erase-Distinct d m.cert_and_keys v.stored }
perform-IsValid (add d sans) m v =
    ground
      (arith, add_lem d m sans, flip-Distinct d m v, append-Distinct m.managed_domains d v.managed)
perform-IsValid (remove d) m v =
    ground (arith, remove_lem d m, without-Distinct d m.managed_domains v.managed)

run-IsValid : (cs : List Command) (m : Memory) → IsValid m → IsValid (run perform cs m).1
run-IsValid [] m v = v
run-IsValid (c ∷ cs) m v = run-IsValid cs (perform c m).1 (perform-IsValid c m v)

-- After any calls on a new memory keystore, no domain is managed twice and no certificate is
-- listed twice.
pub reached-IsValid :
    (account : AcmeAccount) (cs : List Command)
    → IsValid (run perform cs (new_memory_keystore account)).1
reached-IsValid account cs =
    run-IsValid cs (new_memory_keystore account)
      (unfold new_memory_keystore in record { managed = tt; stored = tt })
