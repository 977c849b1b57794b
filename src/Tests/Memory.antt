-- ===== src/Tests/Memory.antt =====
-- The memory back end and the handlers over it, on a keystore with one managed domain.
use go_acme_store.Common.{String-discrete, ◌≡◌, refl, true, false, List, [], ◌∷◌, ok, some, arith}
use text.Mathlib.TextEquality.{eq_iff}
use go_acme_store.Common.Dict.{lookup, insert}
use go_acme_store.Keystore.Types.{no_cert}
use go_acme_store.Keystore.Named.{is_listed, drop_loop}
use go_acme_store.Keystore.Memory.{
  Memory, memory, new_memory_keystore, get_cert_and_key, get_leaf_cert, store_cert_and_key,
  delete_cert_and_key, get_managed_domains, add_managed_domain_with_sans, remove_managed_domain,
  is_managed_domain, flip_to_managed,
}
use go_acme_store.Keystore.Memory.Laws.{memory-IsLawful}
use go_acme_store.Keystore.Memory.Refinement.{
  Command, store, add, remove, perform, contents, promise, run, run-promise, reads-contents,
  seen_run,
}
use go_acme_store.Keystore.Memory.Invariant.{IsValid, reached-IsValid}
use go_acme_store.Api.Response.{KeystoreExport, with_keystore}
use go_acme_store.Api.Certs.{handler_delete_cert, delete_found}
use go_acme_store.Api.Certs.Laws.{delete_keeps_managed}
use go_acme_store.Api.Domains.{
  AddDomainRequest, add_domain, handler_add_domain, handler_remove_domain, mark_unmanaged,
  soft_delete,
}
use go_acme_store.Api.Domains.Laws.{remove-add, remove_keeps_cert, hard_delete_hides_error}
use go_acme_store.Tests.World.{account, cert_named}

abbrev commands : List Command
commands = add "a.example" [] ∷ store "a.example" (cert_named "a.example") ∷ remove "b.example" ∷ []

abbrev empty : Memory
empty = record { account = account; cert_and_keys = []; managed_domains = [] }

abbrev one : Memory
one = record {
  account = account;
  cert_and_keys = ("a.example", cert_named "a.example") ∷ [];
  managed_domains = "a.example" ∷ [];
}

run-promise_example : seen_run (run perform commands empty) ≡ run promise commands (contents empty)
run-promise_example = run-promise commands empty

reads-contents_example :
    (get_cert_and_key "a.example" one ≡ ok (cert_named "a.example"))
    × (get_leaf_cert "a.example" one ≡ ok "-CERTIFICATE")
    × (is_managed_domain "a.example" one ≡ ok true)
unfolding String-discrete lookup
reads-contents_example = reads-contents "a.example" one

reached-IsValid_example : IsValid (run perform commands (new_memory_keystore account)).1
reached-IsValid_example = reached-IsValid account commands

delete_keeps_managed_example : get_cert_and_key "a.example" one ≡ ok (cert_named "a.example")
unfolding handler_delete_cert with_keystore delete_found get_cert_and_key lookup String-discrete
delete_keeps_managed_example =
    delete_keeps_managed memory memory-IsLawful "a.example" "a.example" (cert_named "a.example") one
      one tt tt refl refl refl

abbrev unmanaged : Memory
unmanaged = record one {
  managed_domains = [];
  cert_and_keys = ("a.example", record (cert_named "a.example") { managed = false }) ∷ [];
}

abbrev dump : KeystoreExport
dump = record {
  version = "1.0";
  exported_at = "now";
  acme_account = account;
  certificates = ("a.example", cert_named "a.example") ∷ [];
  domains = "a.example" ∷ "b.example" ∷ [];
}

abbrev request : AddDomainRequest
request = record { domain = "b.example"; sans = [] }

abbrev two : Memory
two = record one { managed_domains = "a.example" ∷ "b.example" ∷ [] }

remove-add_example : get_managed_domains one ≡ ok ("a.example" ∷ [])
unfolding handler_add_domain with_keystore add_domain add_managed_domain_with_sans is_listed
    flip_to_managed get_managed_domains lookup String-discrete handler_remove_domain soft_delete
    mark_unmanaged remove_managed_domain drop_loop get_cert_and_key
remove-add_example =
    remove-add memory memory-IsLawful request one two one ("a.example" ∷ []) tt refl refl refl refl
      refl

remove_keeps_cert_example :
    (get_managed_domains unmanaged ≡ ok [])
    × (get_cert_and_key "a.example" unmanaged
        ≡ ok (record (cert_named "a.example") { managed = false }))
unfolding with_keystore get_managed_domains lookup insert String-discrete handler_remove_domain
    soft_delete mark_unmanaged remove_managed_domain drop_loop get_cert_and_key store_cert_and_key
remove_keeps_cert_example =
    remove_keeps_cert memory memory-IsLawful "a.example" (cert_named "a.example") one unmanaged
      ("a.example" ∷ []) tt refl refl (ground (arith, eq_iff "a.example" "")) refl refl refl

hard_delete_hides_error_example :
    (t : Memory) × ((handler_remove_domain memory "b.example" "true" (some one)).1 ≡ some t)
    × ((handler_remove_domain memory "b.example" "true" (some one)).0.status ≡ 200)
    × (get_cert_and_key "b.example" t ≡ ok no_cert)
    × (get_managed_domains t ≡ get_managed_domains (remove_managed_domain "b.example" one).1)
unfolding remove_managed_domain drop_loop delete_cert_and_key String-discrete
hard_delete_hides_error_example =
    hard_delete_hides_error memory memory-IsLawful "b.example" "domain b.example is not managed" one
      tt (ground (arith, eq_iff "b.example" "")) refl refl
