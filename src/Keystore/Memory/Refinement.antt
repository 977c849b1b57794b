-- ===== src/Keystore/Memory/Refinement.antt =====
-- The memory back end against its specification: a partial map of certificates and a set of
-- managed domains. The set forgets the order in which domains were added.
use go_acme_store.Common.{
  String, ◌<>◌, ◌≡◌, refl, ap, Bool-cases, inl, inr, Bool, true, false, Option, none, some, List,
  [], ◌∷◌, Result, ok, err, Effect, arith, ◌==◌, contains, contains-append, contains-without,
  if◌then◌else◌,
}
use mathlib.Core.Option
use go_acme_store.Common.Dict.{lookup, lookup-insert, lookup-erase}
use go_acme_store.Keystore.Types.{CertAndKey, no_cert}
use go_acme_store.Keystore.Memory.{
  Memory, get_cert_and_key, get_leaf_cert, store_cert_and_key, delete_cert_and_key,
  add_managed_domain_with_sans, remove_managed_domain, is_managed_domain,
}
use go_acme_store.Keystore.Laws.{as_managed}
use go_acme_store.Keystore.Memory.Laws.{lookup-flip, remove_lem, add_lem}
use go_acme_store.Keystore.Named.{is_listed-itself}

-- The calls that change a keystore.
pub data Command : Type 0 where
  store : String → CertAndKey → Command
  delete : String → Command
  add : String → List String → Command
  remove : String → Command

unfoldable pub perform : Command → Effect Memory
perform (store d c) = store_cert_and_key d c
perform (delete d) = delete_cert_and_key d
perform (add d sans) = add_managed_domain_with_sans d sans
perform (remove d) = remove_managed_domain d

pub record Contents : Type 0 where
  pub cert : String → Option CertAndKey
  pub managed : String → Bool

abbrev pub contents : Memory → Contents
contents m = record { cert = λ d. lookup d m.cert_and_keys; managed = contains m.managed_domains }

-- What each call promises. An addition makes no placeholder for a domain without a certificate,
-- unlike in the other back ends and in API.md.
abbrev pub promise : Command → Effect Contents
promise (store d c) k = (ok tt, record k { cert = λ a. if a == d then some c else k.cert a })
promise (delete d) k = (ok tt, record k { cert = λ a. if a == d then none else k.cert a })
promise (add d sans) k =
    if k.managed d then (err ("domain " <> d <> " is already managed"), k) else (
      ok tt,
      record {
        cert = λ a. if a == d then Option.map as_managed (k.cert a) else k.cert a;
        managed = λ a. if d == a then true else k.managed a;
      },
    )
promise (remove d) k =
    if k.managed d
    then (ok tt, record k { managed = λ a. if d == a then false else k.managed a })
    else (err ("domain " <> d <> " is not managed"), k)

contents_path :
    (k l : Contents)
    → ((a : String) → k.cert a ≡ l.cert a)
    → ((a : String) → k.managed a ≡ l.managed a)
    → k ≡ l
contents_path k l p q = λ i. record { cert = λ a. p a i; managed = λ a. q a i }

abbrev seen : Result (Unit {0}) × Memory → Result (Unit {0}) × Contents
seen r = (r.0, contents r.1)

-- Each call returns what is promised, and leaves the promised contents.
pub perform-promise : (c : Command) (m : Memory) → seen (perform c m) ≡ promise c (contents m)
unfolding perform
perform-promise (store d c) m =
    unfold store_cert_and_key in
    ap (λ (k : Contents). (ok tt, k))
      (contents_path _ _ (λ a. lookup-insert a d c m.cert_and_keys) (λ a. refl))
perform-promise (delete d) m =
    unfold delete_cert_and_key in
    ap (λ (k : Contents). (ok tt, k))
      (contents_path _ _ (λ a. lookup-erase a d m.cert_and_keys) (λ a. refl))
perform-promise (add d sans) m =
    rw (add_lem d m sans) (elim (Bool-cases (contains m.managed_domains d)) [
      | inl old ↦ rw old
      | inr new ↦ rw new (
          ap (λ (k : Contents). (ok tt, k))
            (contents_path _ _ (λ a. lookup-flip a d m.cert_and_keys)
              (λ a. ground (arith, contains-append m.managed_domains (d ∷ []) a))))
    ])
perform-promise (remove d) m =
    rw (remove_lem d m) (elim (Bool-cases (contains m.managed_domains d)) [
      | inl old ↦ rw old (
          ap (λ (k : Contents). (ok tt, k))
            (contents_path _ _ (λ a. refl) (λ a. contains-without d m.managed_domains a)))
      | inr new ↦ rw new
    ])

-- A run of calls, with the result of each.
abbrev pub run :
    {S : Type 0} → (Command → Effect S) → List Command → S → List (Result (Unit {0})) × S
run f [] s = ([], s)
run f (c ∷ cs) s = let (r, s') = f c s in let (rs, t) = run f cs s' in (r ∷ rs, t)

abbrev pub seen_run : List (Result (Unit {0})) × Memory → List (Result (Unit {0})) × Contents
seen_run r = (r.0, contents r.1)

-- Every run of calls on a memory keystore has the results and the final contents that the
-- specification gives for the contents at the start. The specification is a partial map of
-- certificates and a set of managed domains. It is what the memory back end is written to do: the
-- addition of a domain marks a certificate that is there as managed, and makes no placeholder
-- where there is none, though API.md and the other back ends have one.
pub run-promise :
    (cs : List Command) (m : Memory) → seen_run (run perform cs m) ≡ run promise cs (contents m)
run-promise [] m = refl
run-promise (c ∷ cs) m = rw (← perform-promise c m, ← run-promise cs (perform c m).1)

-- The reads show the contents: a missing certificate reads as the zero value.
pub reads-contents :
    (d : String) (m : Memory)
    → (get_cert_and_key d m ≡ ok (Option.get_or ((contents m).cert d) no_cert))
      × (get_leaf_cert d m ≡ ok (Option.get_or ((contents m).cert d) no_cert).leaf_cert_pem)
      × (is_managed_domain d m ≡ ok ((contents m).managed d))
unfolding get_cert_and_key get_leaf_cert is_managed_domain
reads-contents d m = (ground arith, ground arith, rw is_listed-itself)
