-- ===== src/Api/Domains.antt =====
-- The handlers under /api/domains, and the renewal trigger.
pub mod Laws
use go_acme_store.Common.{
  ℕ, String, ◌<>◌, Bool, true, false, not, ◌&&◌, Option, none, some, List, [], ◌∷◌, Result, ok, err,
  ◌==◌, if◌then◌else◌, length,
}
use go_acme_store.Keystore.{Keystore}
use go_acme_store.Keystore.Types.{CertAndKey}
use go_acme_store.Api.Response.{
  Body, domains, added, message, note, Response, reply, refuse, Handler, with_keystore, reading,
}
use go_acme_store.Worker.Trigger.{Daemon, trigger_acme_orders}

-- type addDomainRequest
pub record AddDomainRequest : Type 0 where
  pub domain : String
  pub sans : List String

module _ (K : Keystore) where
  unfoldable pub handler_get_domains : Handler K.State
  handler_get_domains = with_keystore (
      reading (λ s. elim (K.get_managed_domains s) [
        | err e ↦ refuse 500 ("failed to get managed domains: " <> e)
        | ok names ↦ reply 200 (domains names (length names))
      ]))

  unfoldable pub add_domain : String → List String → K.State → Response × K.State
  add_domain domain sans s =
      let (r, s') = K.add_managed_domain_with_sans domain sans s in
      elim r [
        | err e ↦ (refuse 400 ("failed to add domain: " <> e), s')
        | ok _ ↦
            (reply 201 (added ("domain " <> (domain <> " added successfully")) domain sans), s')
      ]

  -- `none` is a body that `BodyParser` refuses.
  unfoldable pub handler_add_domain : Option AddDomainRequest → Handler K.State
  unfolding add_domain
  handler_add_domain req = with_keystore (λ s. elim req [
    | none ↦ (refuse 400 "invalid request body", s)
    | some q ↦
        if q.domain == ""
        then (refuse 400 "domain field is required", s)
        else add_domain q.domain q.sans s
  ])

  -- The soft delete: the certificate is kept, and marked as unmanaged. The error of the store is
  -- logged and dropped.
  unfoldable pub mark_unmanaged : String → K.State → K.State
  mark_unmanaged domain s = elim (K.get_cert_and_key domain s) [
    | err e ↦ s
    | ok c ↦
        if c.common_name == ""
        then s
        else (K.store_cert_and_key domain (record c { managed = false }) s).1
  ]

  -- The hard delete, after the domain's removal with the error `removed`.
  unfoldable pub hard_delete : String → Result (Unit {0}) → K.State → Response × K.State
  hard_delete domain removed s =
      let (r, s') = K.delete_cert_and_key domain s in
      elim r [
        | ok _ ↦ (
          reply 200 (message ("domain " <> (domain <> " removed and certificate deleted")) domain),
          s',
        )
        | err e ↦ elim removed [
          | err e' ↦ (refuse 404 ("domain not found: " <> e'), s')
          | ok _ ↦ (refuse 500 ("failed to delete certificate: " <> e), s')
        ]
      ]

  unfoldable pub soft_delete : String → Result (Unit {0}) → K.State → Response × K.State
  unfolding mark_unmanaged
  soft_delete domain (err e) s = (refuse 404 ("failed to remove domain: " <> e), s)
  soft_delete domain (ok _) s = (
    reply 200 (message ("domain " <> (domain <> " removed successfully")) domain),
    mark_unmanaged domain s,
  )

  -- `delete_cert` is the value of the query parameter, "false" where it is absent.
  unfoldable pub handler_remove_domain : String → String → Handler K.State
  unfolding hard_delete soft_delete
  handler_remove_domain domain delete_cert = with_keystore (λ s.
      if domain == ""
      then (refuse 400 "domain parameter is required", s)
      else (let (removed, s') = K.remove_managed_domain domain s in
          if delete_cert == "true"
          then hard_delete domain removed s'
          else soft_delete domain removed s'))

  -- The trigger runs on a goroutine of its own; the daemon's state stands beside the keystore.
  unfoldable pub handler_trigger_renewal : Option K.State × Daemon → Response × Daemon
  unfolding trigger_acme_orders
  handler_trigger_renewal (ks, daemon) = elim ks [
    | none ↦ (refuse 503 "keystore not initialized - keystore may be unavailable", daemon)
    | some s ↦ (
      reply 202 (note "certificate renewal triggered, check logs for progress"),
      trigger_acme_orders daemon,
    )
  ]
