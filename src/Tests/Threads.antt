-- ===== src/Tests/Threads.antt =====
-- Threads over the memory back end and the small world.
use text.Mathlib.TextEquality.{eq_iff}
use go_acme_store.Common.{inl, ℕ, String, ◌≡◌, refl, false, some, List, [], ◌∷◌, ok, arith}
use go_acme_store.Common.{String-discrete}
use go_acme_store.Common.Dict.{lookup}
use go_acme_store.Crypto.Certificates.{
  block_certs, certs_loop, get_certs, first_leaf, get_leaf_cert, ca_names, get_issuers_cn,
  cert_to_pem,
}
use go_acme_store.Crypto.Keys.{encode_private_key}
use go_acme_store.Keystore.Types.{CertAndKey}
use go_acme_store.Keystore.Named.{drop_loop}
use go_acme_store.Keystore.Issued.{new_cert_and_key, populate_missing_fields, name_of}
use go_acme_store.Threads.Orders.{pem_of}
use go_acme_store.Threads.LostUpdate.{threads, both_succeeded, interleave_soft_delete}
use go_acme_store.Keystore.Memory.{
  Memory, memory, remove_managed_domain, get_cert_and_key, store_cert_and_key, delete_cert_and_key,
}
use go_acme_store.Keystore.Laws.{IsReliable}
use go_acme_store.Keystore.Memory.Laws.{memory-IsLawful}
use go_acme_store.Acme.Renewal.{Env, Obtained}
use go_acme_store.System.{Request, add, remove}
use go_acme_store.System.Kept.{same_key}
use go_acme_store.Threads.{Thread, interleave}
use go_acme_store.Threads.Discipline.Pool.{pool}
use go_acme_store.Threads.Genuine.{Deletes, AllGenuine, interleave-AllGenuine}
use go_acme_store.Threads.Frame.{interleave_frame}
use go_acme_store.Tests.World.{account, cert_named, env, issued, obtained}

abbrev start : Memory
start = record {
  account = account;
  cert_and_keys =
      ("a.example", cert_named "a.example") ∷ ("b.example", cert_named "b.example") ∷ [];
  managed_domains = "a.example" ∷ [];
}

store-IsReliable : IsReliable memory
unfolding store_cert_and_key
store-IsReliable d c s = refl

delete-Deletes : Deletes memory
unfolding delete_cert_and_key
delete-Deletes d s = refl

-- A run is a day, on which the provider issues.
abbrev on_day : ℕ → String → Env
on_day today d = env today issued

-- A removal, an addition and a renewal at the same time.
abbrev requests : List Request
requests = remove "a.example" "false" ∷ add (some (record { domain = "c.example"; sans = [] })) ∷ []

abbrev schedule : List ℕ
schedule = 2 ∷ 2 ∷ 2 ∷ 2 ∷ 0 ∷ 0 ∷ 2 ∷ 1 ∷ 0 ∷ []

abbrev AtStart : String → CertAndKey → Type 0
AtStart d c = get_cert_and_key d start ≡ ok c

interleave-AllGenuine_example :
    AllGenuine on_day AtStart memory
      (λ _. Unit {0})
      (interleave memory schedule (pool on_day requests ((80, "a.example" ∷ []) ∷ [])) start).1
interleave-AllGenuine_example =
    interleave-AllGenuine on_day AtStart memory memory-IsLawful store-IsReliable delete-Deletes
      schedule requests ((80, "a.example" ∷ []) ∷ []) start (tt, (tt, tt)) ((tt, tt), tt)
      (λ a c _ h. record { origin = c; from = inl h; same = same_key c })

interleave_frame_example :
    get_cert_and_key "b.example"
      (interleave memory schedule (pool on_day requests ((80, "a.example" ∷ []) ∷ [])) start).1
    ≡ get_cert_and_key "b.example" start
interleave_frame_example =
    interleave_frame memory memory-IsLawful "b.example" tt on_day schedule requests
      ((80, "a.example" ∷ []) ∷ []) start
      (
        (tt, λ e. ground (arith, eq_iff "b.example" "a.example")),
        ((tt, λ e. ground (arith, eq_iff "b.example" "c.example")), tt),
      )
      (((tt, λ e. ground (arith, eq_iff "b.example" "a.example")), tt), tt)

abbrev answer : Obtained
answer = record { chain_pem = "-CERTIFICATE"; url = "https://acme.example/1" }

-- The keystore and the threads after these calls, the first thread the removal of a.example.
abbrev after : List ℕ → List Thread × Memory
after calls =
    interleave memory calls
      (threads memory memory-IsLawful store-IsReliable (on_day 80) "a.example" tt tt (answer ∷ [])
        [])
      start

abbrev both : List Thread
both = both_succeeded memory memory-IsLawful store-IsReliable (on_day 80) "a.example" tt []

interleave_soft_delete_example :
    ((after (0 ∷ 0 ∷ 1 ∷ 0 ∷ [])).0 ≡ both)
    × (get_cert_and_key "a.example" (after (0 ∷ 0 ∷ 1 ∷ 0 ∷ [])).1
        ≡ ok (record (cert_named "a.example") { managed = false }))
    × ((after (0 ∷ 1 ∷ 0 ∷ 0 ∷ [])).0 ≡ both)
    × (get_cert_and_key "a.example" (after (0 ∷ 1 ∷ 0 ∷ 0 ∷ [])).1
        ≡ ok (record obtained { managed = false }))
unfolding get_cert_and_key lookup remove_managed_domain drop_loop pem_of encode_private_key
    new_cert_and_key populate_missing_fields name_of get_leaf_cert first_leaf get_certs certs_loop
    block_certs get_issuers_cn ca_names cert_to_pem String-discrete
interleave_soft_delete_example =
    interleave_soft_delete memory memory-IsLawful store-IsReliable (on_day 80) "a.example" tt tt
      answer [] [] (cert_named "a.example") obtained start (ground (arith, eq_iff "a.example" ""))
      refl refl (ground (arith, eq_iff "a.example" "")) refl (ground (arith, eq_iff "a.example" ""))
