-- ===== src/System.antt =====
-- The running server: the handlers of cmd/acme-store/httpserver.go, the retry loop of keystore.go and
-- the daemon of worker.go over the one global keystore. Only the runs of the daemon and the openings
-- hold `mutex`, so that requests are served in the middle of a run. A schedule is a list of events.
pub mod Whole
pub mod Kept
pub mod Requests
pub mod Origin
pub mod Survival
pub mod Race
use go_acme_store.Common.{String, Option, none, some, List, [], ◌∷◌, Result, ok, err, if◌then◌else◌}
use go_acme_store.Keystore.{Keystore}
use go_acme_store.Acme.Renewal.{Env, mark_failed}
use go_acme_store.Acme.Renewal.Split.{Asked, fresh, renew_ask, renew_store}
use go_acme_store.Worker.{is_skipped, sans_for}
use go_acme_store.Api.Response.{KeystoreExport, Handler}
use go_acme_store.Api.Domains.{AddDomainRequest, handler_add_domain, handler_remove_domain}
use go_acme_store.Api.Certs.{handler_delete_cert}
use go_acme_store.Api.Backup.{handler_import_keystore}

-- The requests that change the keystore.
pub data Request : Type 0 where
  add : Option AddDomainRequest → Request
  -- the domain and `delete_cert`
  remove : String → String → Request
  delete : String → Request
  restore : Result KeystoreExport → Request

module _ (K : Keystore) where
  unfoldable pub handle : Request → Handler K.State
  handle (add q) = handler_add_domain K q
  handle (remove domain delete_cert) = handler_remove_domain K domain delete_cert
  handle (delete domain) = handler_delete_cert K domain
  handle (restore body) = handler_import_keystore K body

  -- `env m` is what a renewal meets at the moment `m`.
  module _ {Moment : Type 0} (env : Moment → Env) where
    -- The body of the loop of `doAcmeOrders` up to the provider's answer, and from there on.
    unfoldable pub order_ask : (m : Moment) → String → K.State → Asked (env m)
    order_ask m domain s =
        if is_skipped K (K.get_cert_and_key domain s)
        then fresh
        else renew_ask K (env m) domain (sans_for K domain s) s

    unfoldable pub order_store : (m : Moment) → String → Asked (env m) → K.State → K.State
    order_store m domain a s =
        let (r, s') = renew_store K (env m) domain a s in
        elim r [ ok _ ↦ s' | err e ↦ mark_failed K domain e s' ]

    -- Where the daemon is: between runs, before one of the domains that are left, or after the
    -- provider's answer for a domain.
    pub data Work : Type 0 where
      idle : Work
      ordering : List String → Work
      storing : (m : Moment) → String → Asked (env m) → List String → Work

    pub record System : Type 0 where
      pub ks : Option K.State
      pub work : Work

    pub data Event : Type 0 where
      request : Request → Event
      -- the retry loop opens this keystore
      opened : K.State → Event
      -- the daemon begins a run, or goes on with one
      begin : Event
      ask : Moment → Event
      store : Event

    unfoldable pub begun : Option K.State → Work
    begun none = idle
    begun (some s) = elim (K.get_managed_domains s) [ err e ↦ idle | ok l ↦ ordering l ]

    unfoldable pub go_on : Moment → Option K.State → Work → Work
    unfolding order_ask
    go_on m ks idle = idle
    go_on m ks (ordering []) = idle
    go_on m none (ordering (d ∷ ds)) = ordering (d ∷ ds)
    go_on m (some s) (ordering (d ∷ ds)) = storing m d (order_ask m d s) ds
    go_on m ks (storing n d a ds) = storing n d a ds

    unfoldable pub write : Work → Option K.State → Option K.State
    unfolding order_store
    write idle ks = ks
    write (ordering ds) ks = ks
    write (storing m d a ds) none = none
    write (storing m d a ds) (some s) = some (order_store m d a s)

    unfoldable pub written : Work → Work
    written idle = idle
    written (ordering ds) = ordering ds
    written (storing m d a ds) = ordering ds

    abbrev pub idle_begun : Option K.State → Work → Work
    idle_begun ks idle = begun ks
    idle_begun ks (ordering ds) = ordering ds
    idle_begun ks (storing m d a ds) = storing m d a ds

    unfoldable pub perform : Event → System → System
    unfolding handle begun go_on write written
    perform (request r) x = record x { ks = (handle r x.ks).1 }
    perform (opened s) x = record x { ks = elim x.ks [ none ↦ some s | some t ↦ some t ] }
    perform begin x = record x { work = idle_begun x.ks x.work }
    perform (ask m) x = record x { work = go_on m x.ks x.work }
    perform store x = record x { ks = write x.work x.ks; work = written x.work }

    unfoldable pub run : List Event → System → System
    unfolding perform
    run [] x = x
    run (e ∷ es) x = run es (perform e x)
