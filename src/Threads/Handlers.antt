-- ===== src/Threads/Handlers.antt =====
-- The handlers of httpserver.go that change the keystore, call by call, from the point where the
-- keystore is there.
use go_acme_store.Common.{
  ℕ, ◌+◌, String, ◌<>◌, false, Option, none, some, List, [], ◌∷◌, Result, ok, err, ◌==◌,
  if◌then◌else◌, length, Bool,
}
use go_acme_store.Common.Dict.{Dict, lookup}
use go_acme_store.Keystore.Types.{CertAndKey}
use go_acme_store.Api.Response.{KeystoreExport, added, message, imported, Response, reply, refuse}
use go_acme_store.Api.Domains.{AddDomainRequest}
use go_acme_store.Api.Backup.{Tally, count_result, zero_tally, sans_of}
use go_acme_store.System.{Request, add, remove, delete, restore}
use go_acme_store.Threads.{
  get, store_cert, delete_cert, add_domain, add_with_sans, remove_domain, is_managed, replied,
  Thread, done, call,
}

abbrev pub answer_with : ℕ → String → Thread
answer_with status text = done (replied (refuse status text))

unfoldable pub add_reply : AddDomainRequest → Result (Unit {0}) → Response
add_reply q (err e) = refuse 400 ("failed to add domain: " <> e)
add_reply q (ok _) =
    reply 201 (added ("domain " <> (q.domain <> " added successfully")) q.domain q.sans)

unfoldable pub serve_add : Option AddDomainRequest → Thread
unfolding add_reply
serve_add none = answer_with 400 "invalid request body"
serve_add (some q) =
    if q.domain == ""
    then answer_with 400 "domain field is required"
    else call (add_with_sans q.domain q.sans) (λ r. done (replied (add_reply q r)))

-- `certAndKey, err := ks.GetCertAndKey(domain)`, and its store with `Managed = false`. The thread
-- goes on with `k`.
unfoldable pub unmark_found : String → Thread → Result CertAndKey → Thread
unmark_found domain k (err e) = k
unmark_found domain k (ok c) =
    if c.common_name == ""
    then k
    else call (store_cert domain (record c { managed = false })) (λ _. k)

unfoldable pub unmark : String → Thread → Thread
unfolding unmark_found
unmark domain k = call (get domain) (unmark_found domain k)

unfoldable pub hard_reply : String → Result (Unit {0}) → Result (Unit {0}) → Response
hard_reply domain removed (ok _) =
    reply 200 (message ("domain " <> (domain <> " removed and certificate deleted")) domain)
hard_reply domain (err e') (err e) = refuse 404 ("domain not found: " <> e')
hard_reply domain (ok _) (err e) = refuse 500 ("failed to delete certificate: " <> e)

unfoldable pub soft_remove : String → Result (Unit {0}) → Thread
unfolding unmark
soft_remove domain (err e) = answer_with 404 ("failed to remove domain: " <> e)
soft_remove domain (ok _) =
    unmark domain (
      done
        (replied (reply 200 (message ("domain " <> (domain <> " removed successfully")) domain))))

unfoldable pub serve_remove : String → String → Thread
unfolding soft_remove hard_reply
serve_remove domain flag =
    if domain == ""
    then answer_with 400 "domain parameter is required"
    else call (remove_domain domain) (λ removed.
      if flag == "true"
      then call (delete_cert domain) (λ r. done (replied (hard_reply domain removed r)))
      else soft_remove domain removed)

unfoldable pub deleted_reply : String → Result (Unit {0}) → Response
deleted_reply domain (err e) = refuse 500 ("failed to delete certificate: " <> e)
deleted_reply domain (ok _) =
    reply 200 (message ("certificate for domain " <> (domain <> " deleted successfully")) domain)

unfoldable pub delete_looked_up : String → Result CertAndKey → Thread
unfolding deleted_reply
delete_looked_up domain (err e) = answer_with 404 ("certificate not found for domain " <> domain)
delete_looked_up domain (ok c) =
    if c.managed
    then answer_with 400 (
        "cannot delete managed certificate for domain "
        <> (domain <> (", unmanage it first by calling DELETE /api/domains/" <> domain)))
    else call (delete_cert domain) (λ r. done (replied (deleted_reply domain r)))

unfoldable pub serve_delete : String → Thread
unfolding delete_looked_up
serve_delete domain =
    if domain == ""
    then answer_with 400 "domain parameter is required"
    else call (get domain) (delete_looked_up domain)

-- The loop over `importData.Certificates`.
unfoldable pub restore_certs : Dict CertAndKey → Tally → (Tally → Thread) → Thread
restore_certs [] t k = k t
restore_certs ((domain, cert) ∷ rest) t k =
    call (store_cert domain cert) (λ r. restore_certs rest (count_result r t) k)

unfoldable pub restore_add : String → List String → Tally → (Tally → Thread) → Thread
restore_add domain [] t k = call (add_domain domain) (λ r. k (count_result r t))
restore_add domain (san ∷ sans) t k =
    call (add_with_sans domain (san ∷ sans)) (λ r. k (count_result r t))

unfoldable pub restore_checked :
    Dict CertAndKey → String → Tally → (Tally → Thread) → Result Bool → Thread
unfolding restore_add
restore_checked certs domain t k (err e) = k (record t { failed = t.failed + 1 })
restore_checked certs domain t k (ok managed) =
    if managed then k t else restore_add domain (sans_of (lookup domain certs)) t k

-- The loop over `importData.Domains`.
unfoldable pub restore_domains : Dict CertAndKey → List String → Tally → (Tally → Thread) → Thread
unfolding restore_checked
restore_domains certs [] t k = k t
restore_domains certs (domain ∷ rest) t k =
    call (is_managed domain)
      (restore_checked certs domain t (λ t'. restore_domains certs rest t' k))

unfoldable pub restored_reply : KeystoreExport → Tally → Tally → Response
restored_reply dump c d = reply 200 (
    imported (record {
      certificates_imported = c.done;
      certificates_failed = c.failed;
      certificates_total = length dump.certificates;
      domains_imported = d.done;
      domains_failed = d.failed;
      domains_total = length dump.domains;
    }))

unfoldable pub restore_all : KeystoreExport → Thread
unfolding restore_certs restore_domains restored_reply
restore_all dump = restore_certs dump.certificates zero_tally (λ c.
    restore_domains dump.certificates dump.domains zero_tally
      (λ d. done (replied (restored_reply dump c d))))

unfoldable pub serve_restore : Result KeystoreExport → Thread
unfolding restore_all
serve_restore (err e) = answer_with 400 ("invalid import data: " <> e)
serve_restore (ok dump) =
    if dump.version == "1.0"
    then restore_all dump
    else answer_with 400 ("unsupported export version: " <> (dump.version <> " (expected 1.0)"))

unfoldable pub serve : Request → Thread
unfolding serve_add serve_remove serve_delete serve_restore
serve (add q) = serve_add q
serve (remove domain flag) = serve_remove domain flag
serve (delete domain) = serve_delete domain
serve (restore body) = serve_restore body
