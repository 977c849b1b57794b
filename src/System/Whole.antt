-- ===== src/System/Whole.antt =====
-- The daemon alone: a run that nothing disturbs is `doAcmeOrders`.
use go_acme_store.Common.{
  String, ◌≡◌, refl, sym, ap, ◌∙◌, Option, some, List, [], ◌∷◌, ok, arith, Bool-cases, inl, inr,
}
use go_acme_store.Keystore.{Keystore}
use go_acme_store.Acme.Renewal.{Env}
use go_acme_store.Acme.Renewal.Split.{renew_store, renew_split}
use go_acme_store.Worker.{
  is_skipped, sans_for, order_domain, order_domains, do_acme_orders, ensure_keystore,
}
use go_acme_store.System.{
  order_ask, order_store, Work, idle, ordering, System, Event, begin, ask, store, begun, go_on,
  write, written, perform, run,
}

module _ (K : Keystore) {Moment : Type 0} (env : Moment → Env) (m : Moment) where
  abbrev env_now : String → Env
  env_now d = env m

  -- With nothing in between, the two parts are the body of the loop.
  order_split :
      (d : String) (s : K.State)
      → order_domain K env_now d s ≡ order_store K env m d (order_ask K env m d s) s
  unfolding order_domain order_ask order_store
  order_split d s = elim (Bool-cases (is_skipped K (K.get_cert_and_key d s))) [
    | inl skipped ↦ unfold renew_store in ground arith
    | inr taken ↦ ground (arith, renew_split K (env m) d (sans_for K d s) s)
  ]

  abbrev pub undisturbed : List String → List (Event K env)
  undisturbed [] = ask m ∷ []
  undisturbed (d ∷ ds) = ask m ∷ store ∷ undisturbed ds

  orders_run :
      (ds : List String) (s : K.State)
      → run K env (undisturbed ds) (record { ks = some s; work = ordering ds })
        ≡ record { ks = some (order_domains K env_now ds s); work = idle }
  unfolding run perform go_on write written order_domains
  orders_run [] s = refl
  orders_run (d ∷ ds) s =
      rw (order_split d s) (orders_run ds (order_store K env m d (order_ask K env m d s) s))

  begun_lem :
      (s : K.State) (ds : List String)
      → K.get_managed_domains s ≡ ok ds
      → begun K env (some s) ≡ ordering ds
  unfolding begun
  begun_lem s ds listed = ground arith

  abbrev with_work : K.State → Work K env → System K env
  with_work s w = record { ks = some s; work = w }

  abbrev finished : Option K.State → System K env
  finished ks = record { ks = ks; work = idle }

  begin_lem :
      (s : K.State) (ds : List String)
      → K.get_managed_domains s ≡ ok ds
      → perform K env begin (record { ks = some s; work = idle })
        ≡ record { ks = some s; work = ordering ds }
  unfolding perform
  begin_lem s ds listed = ap (λ (w : Work K env). with_work s w) (begun_lem s ds listed)

  orders_lem :
      (s : K.State) (ds : List String)
      → K.get_managed_domains s ≡ ok ds
      → do_acme_orders K env_now (some s) ≡ some (order_domains K env_now ds s)
  unfolding do_acme_orders ensure_keystore
  orders_lem s ds listed = ground arith

  -- Where the list of managed domains can be read: a run of the daemon that no event disturbs
  -- leaves the keystore that doAcmeOrders leaves, and the daemon waits again.
  pub run-undisturbed :
      (s : K.State) (ds : List String)
      → K.get_managed_domains s ≡ ok ds
      → run K env (begin ∷ undisturbed ds) (record { ks = some s; work = idle })
        ≡ record { ks = do_acme_orders K env_now (some s); work = idle }
  unfolding run
  run-undisturbed s ds listed =
      ap (run K env (undisturbed ds)) (begin_lem s ds listed)
      ∙ orders_run ds s
      ∙ ap finished (sym (orders_lem s ds listed))
