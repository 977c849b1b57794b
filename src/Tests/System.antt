-- ===== src/Tests/System.antt =====
-- Schedules of requests and of the daemon's steps, over the memory back end.
use go_acme_store.Common.{
  ℕ, String-discrete, ◌≡◌, refl, true, false, some, List, [], ◌∷◌, ok, arith,
}
use text.Mathlib.TextEquality.{eq_iff}
use go_acme_store.Common.Dict.{lookup, insert}
use go_acme_store.Crypto.Certificates.{
  block_certs, certs_loop, get_certs, first_leaf, get_leaf_cert, ca_names, get_issuers_cn,
  cert_to_pem,
}
use go_acme_store.Crypto.Keys.{encode_private_key}
use go_acme_store.Keystore.Issued.{new_cert_and_key, populate_missing_fields, name_of}
use go_acme_store.Keystore.Named.{drop_loop}
use go_acme_store.Keystore.Memory.{
  Memory, memory, get_cert_and_key, get_leaf_cert as leaf_in_memory, get_managed_domains,
  store_cert_and_key, is_managed_domain, remove_managed_domain,
}
use go_acme_store.Keystore.Laws.{IsReliable}
use go_acme_store.Keystore.Memory.Laws.{memory-IsLawful}
use go_acme_store.Acme.Renewal.{Env, Obtained, key_pem}
use go_acme_store.Acme.Renewal.Split.{answered}
use go_acme_store.Api.Response.{with_keystore}
use go_acme_store.Api.Certs.{handler_delete_cert}
use go_acme_store.Api.Domains.{handler_remove_domain, soft_delete, mark_unmanaged}
use go_acme_store.System.{Event, storing, remove, delete, request, begin, ask, store, run}
use go_acme_store.System.Race.{remove_during_renewal}
use go_acme_store.Tests.World.{account, cert_named, env, issued, obtained}

abbrev start : Memory
start = record {
  account = account;
  cert_and_keys = ("a.example", cert_named "a.example") ∷ [];
  managed_domains = "a.example" ∷ [];
}

store-IsReliable : IsReliable memory
unfolding store_cert_and_key
store-IsReliable d c s = refl

-- A moment is a day. Whenever it is asked, the provider issues.
abbrev on_day : ℕ → Env
on_day today = env today issued

-- The domain is removed while its renewal goes on.
abbrev events : List (Event memory on_day)
events =
    begin
    ∷ ask 80
    ∷ request (remove "a.example" "false")
    ∷ store
    ∷ request (delete "b.example")
    ∷ []

abbrev answer : Obtained
answer = record { chain_pem = "-CERTIFICATE"; url = "https://acme.example/1" }

remove_during_renewal_example :
    (t : Memory) × ((run memory on_day (request (remove "a.example" "false") ∷ store ∷ []) (record {
      ks = some start;
      work = storing 80 "a.example" (answered tt (ok (answer ∷ []))) [];
    })).ks
      ≡ some t)
    × (is_managed_domain "a.example" t ≡ ok false)
    × (get_cert_and_key "a.example" t ≡ ok obtained)
    × (true ≡ true)
    × ((handler_delete_cert memory "a.example" (some t)).0.status ≡ 400)
unfolding new_cert_and_key populate_missing_fields name_of get_leaf_cert first_leaf get_certs
    certs_loop block_certs get_issuers_cn ca_names cert_to_pem String-discrete key_pem
    encode_private_key handler_remove_domain soft_delete mark_unmanaged remove_managed_domain
    drop_loop with_keystore get_managed_domains lookup insert
remove_during_renewal_example =
    remove_during_renewal memory memory-IsLawful store-IsReliable on_day 80 "a.example" tt tt answer
      [] [] ("a.example" ∷ []) obtained start (ground (arith, eq_iff "a.example" "")) refl refl refl
