-- ===== src/Tests/Renewal.antt =====
-- The renewal and the daemon, over the memory back end and the small world.
use go_acme_store.Common.{String-discrete, ◌≡◌, refl, true, false, [], ◌∷◌, ok, some, inr, ltb}
use go_acme_store.Common.Dict.{lookup, insert}
use go_acme_store.Crypto.Certificates.{
  block_certs, certs_loop, get_certs, first_leaf, get_leaf_cert, check_if_cert_needs_update,
  ca_names, get_issuers_cn, cert_to_pem,
}
use go_acme_store.Crypto.Keys.{encode_private_key, decode_private_key, find_key}
use go_acme_store.Keystore.Types.{CertAndKey}
use go_acme_store.Keystore.Issued.{new_cert_and_key, populate_missing_fields, name_of}
use go_acme_store.Keystore.Memory.{
  Memory, memory, get_acme_account, get_cert_and_key, get_leaf_cert as leaf_in_memory,
  get_managed_domains, store_cert_and_key,
}
use go_acme_store.Keystore.Memory.Laws.{memory-IsLawful}
use go_acme_store.Acme.Solvers.{get_solver, get_acmedns_solver, resolvers_of}
use go_acme_store.Acme.Renewal.{
  retrieve_acme_account, key_pem, store_obtained, renew_cert_if_needed,
}
use go_acme_store.Acme.Renewal.Laws.{renew_success}
use go_acme_store.Worker.{is_skipped, sans_for, do_acme_orders}
use go_acme_store.Worker.Orders.{do_acme_orders_frame}
use go_acme_store.Worker.Trigger.{
  Daemon, daemon_start, trigger_acme_orders, here, next, trigger, Answered, trigger-Answered,
}
use go_acme_store.Tests.World.{account, cert_named, env, issued, pki}

abbrev one : Memory
one = record {
  account = account;
  cert_and_keys = ("a.example", cert_named "a.example") ∷ [];
  managed_domains = "a.example" ∷ [];
}

abbrev own : Memory
own = record one {
  cert_and_keys = ("a.example", record (cert_named "a.example") { managed = false }) ∷ [];
}

-- Day 80: ten days are left.
late : check_if_cert_needs_update pki (env 80 issued).now "-CERTIFICATE" 21 ≡ true
unfolding check_if_cert_needs_update get_leaf_cert first_leaf get_certs certs_loop block_certs
    String-discrete ltb
late = refl

renew_success_example :
    (c : CertAndKey) × (get_cert_and_key "a.example"
        (renew_cert_if_needed memory (env 80 issued) "a.example" [] one).1
      ≡ ok c)
    × (c.status ≡ "issued")
    × (c.managed ≡ true)
    × (c.error ≡ "")
unfolding sans_for is_skipped renew_cert_if_needed store_obtained key_pem retrieve_acme_account
    get_solver get_acmedns_solver resolvers_of encode_private_key decode_private_key find_key
    new_cert_and_key populate_missing_fields name_of check_if_cert_needs_update first_leaf get_certs
    certs_loop block_certs get_issuers_cn ca_names cert_to_pem String-discrete ltb lookup insert
    get_acme_account get_cert_and_key leaf_in_memory get_leaf_cert store_cert_and_key
renew_success_example =
    renew_success memory memory-IsLawful (env 80 issued) "a.example" [] one "-CERTIFICATE" refl late
      refl

do_acme_orders_frame_example :
    (t : Memory) × (do_acme_orders memory (λ _. env 80 issued) (some own) ≡ some t)
    × (get_managed_domains t ≡ ok ("a.example" ∷ []))
    × (get_cert_and_key "a.example" t ≡ ok (record (cert_named "a.example") { managed = false }))
unfolding get_managed_domains get_cert_and_key lookup String-discrete is_skipped
do_acme_orders_frame_example =
    do_acme_orders_frame memory memory-IsLawful (λ _. env 80 issued) own ("a.example" ∷ []) refl
      (tt, tt) "a.example" (record (cert_named "a.example") { managed = false }) tt refl (inr refl)

abbrev waiting : Daemon
waiting = trigger_acme_orders daemon_start

trigger-Answered_example : Answered 0 (trigger_acme_orders waiting)
trigger-Answered_example = trigger-Answered daemon_start (next here trigger)
