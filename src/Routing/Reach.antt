-- ===== src/Routing/Reach.antt =====
-- Which handler answers each request of the API: no route is shadowed by one that is registered
-- before it.
use go_acme_store.Common.{
  String, String-discrete, ◌<>◌, ◌≡◌, ◌∙◌, refl, true, false, none, some, List, [], ◌∷◌, ◌==◌,
  contains, All, arith, Bool-cases, inl, inr,
}
use go_acme_store.Host.Viper.{Viper}
use go_acme_store.Routing.Setup.{
  Method, http_get, http_post, http_delete, Middleware, recover, logger, request_id, compress, etag,
  favicon, route, middleware, below, monitor, root_redirect, web_ui, static_files, Endpoint,
  version, health_check, config, certs, get_private_key, delete_cert, get_domains, add_domain,
  remove_domain, trigger_renewal, export_keystore, import_keystore, Registered, register,
  access_log_format, new_app, add_fiber_middleware_recover, add_fiber_middleware_logger,
  add_fiber_middleware_request_id, add_fiber_middleware_compression, add_fiber_middleware_etag,
  add_fiber_middleware_metrics, add_fiber_middleware_favicon, get_fiber_app,
}
use go_acme_store.Routing.{
  through, same_method, server_routes, http_server_daemon, Fiber, Answerer, endpoint, answer,
}
use go_acme_store.Routing.Segments.{
  lit, pattern_of, path_of, words, IsSound, api_table, routed, api_literals, first_fit,
  answer_routed,
}

-- The middleware that each request of the API goes through, in this order.
abbrev pub passed : List Middleware
passed =
    recover
    ∷ logger access_log_format
    ∷ request_id "X-CloudOps-Request-Id"
    ∷ compress
    ∷ etag true
    ∷ favicon
    ∷ []

module _ (F : Fiber) (sound : IsSound F) (v : Viper) (app_name : String) where
  abbrev pub served : Method → List String → List Middleware × Answerer
  served m xs = answer F ((http_server_daemon v app_name).0.registered) m (path_of xs)

  -- What is registered, with the routes of the API by segments.
  abbrev after_api : List Registered
  after_api = below "/ui/static" (static_files "static" false) ∷ route http_get "/ui/" web_ui ∷ []

  registered_lem :
      (http_server_daemon v app_name).0.registered
      ≡ middleware recover
        ∷ middleware (logger access_log_format)
        ∷ middleware (request_id "X-CloudOps-Request-Id")
        ∷ middleware compress
        ∷ middleware (etag true)
        ∷ route http_get (pattern_of (lit "metrics" ∷ [])) (monitor (app_name <> " Metrics UI"))
        ∷ middleware favicon
        ∷ route http_get "/" root_redirect
        ∷ routed api_table after_api
  unfolding http_server_daemon get_fiber_app server_routes register new_app
      add_fiber_middleware_recover add_fiber_middleware_logger add_fiber_middleware_request_id
      add_fiber_middleware_compression add_fiber_middleware_etag add_fiber_middleware_metrics
      add_fiber_middleware_favicon
  registered_lem = refl

  module _ (xs : List String) (plain : All F.IsPlain ("api" ∷ xs)) (m : Method)
      (rest : List Registered) where
    pass :
        (w : Middleware)
        → answer F (middleware w ∷ rest) m (path_of ("api" ∷ xs))
          ≡ through w (answer F rest m (path_of ("api" ∷ xs)))
    unfolding answer
    pass w = rw (sound.passes w xs) refl

    miss :
        (pattern : String) (e : Endpoint)
        → F.matched pattern (path_of ("api" ∷ xs)) ≡ none
        → answer F (route http_get pattern e ∷ rest) m (path_of ("api" ∷ xs))
          ≡ answer F rest m (path_of ("api" ∷ xs))
    unfolding answer
    miss pattern e h = elim (Bool-cases (same_method http_get m)) [
      | inl here ↦ ground (arith, h)
      | inr other ↦ ground arith
    ]

  module _ (xs : List String) (plain : All F.IsPlain ("api" ∷ xs)) where
    no_metrics : F.matched (pattern_of (lit "metrics" ∷ [])) (path_of ("api" ∷ xs)) ≡ none
    unfolding String-discrete
    no_metrics =
        sound.matched_lem (lit "metrics" ∷ []) ("api" ∷ xs) (refl, tt) plain
        ∙ rw (sound.same_words "metrics" "api" refl refl) refl

    front :
        (m : Method) (e : Endpoint) (values : List String)
        → first_fit F api_table m ("api" ∷ xs) ≡ some (e, values)
        → served m ("api" ∷ xs) ≡ (passed, endpoint e values)
    unfolding String-discrete
    front m e values h =
        let root = sound.matched_root "api" xs plain in
        let found =
          answer_routed F sound api_table after_api m ("api" ∷ xs) e values api_literals plain h in
        rw
          (
            registered_lem,
            pass xs plain m _ recover,
            pass xs plain m _ (logger access_log_format),
            pass xs plain m _ (request_id "X-CloudOps-Request-Id"),
            pass xs plain m _ compress,
            pass xs plain m _ (etag true),
            miss xs plain m _ _ _ no_metrics,
            pass xs plain m _ favicon,
            miss xs plain m _ _ _ root,
            found,
          )
          refl

  word : (a : String) → contains words a ≡ true → F.IsPlain a
  word a h = sound.plain_words a h

  same : (a b : String) → contains words a ≡ true → contains words b ≡ true → F.same a b ≡ (a == b)
  same a b ha hb = sound.same_words a b ha hb

  -- Over a router that matches patterns segment by segment, as fiber documents it, and middleware
  -- that passes the requests of the API on: each of the twelve requests of the API goes through
  -- the middleware in the order of its registration and is answered by its own handler, which is
  -- given the domain where the path holds one. The domain is one plain segment.
  pub api_reached :
      (d : String)
      → F.IsPlain d
      → (served http_get ("api" ∷ "version" ∷ []) ≡ (passed, endpoint version []))
        × (served http_get ("api" ∷ "healthz" ∷ []) ≡ (passed, endpoint health_check []))
        × (served http_get ("api" ∷ "config" ∷ []) ≡ (passed, endpoint config []))
        × (served http_get ("api" ∷ "certs" ∷ []) ≡ (passed, endpoint certs []))
        × (served http_get ("api" ∷ "certs" ∷ d ∷ "private-key" ∷ [])
            ≡ (passed, endpoint get_private_key (d ∷ [])))
        × (served http_delete ("api" ∷ "certs" ∷ d ∷ []) ≡ (passed, endpoint delete_cert (d ∷ [])))
        × (served http_get ("api" ∷ "domains" ∷ []) ≡ (passed, endpoint get_domains []))
        × (served http_post ("api" ∷ "domains" ∷ []) ≡ (passed, endpoint add_domain []))
        × (served http_delete ("api" ∷ "domains" ∷ d ∷ [])
            ≡ (passed, endpoint remove_domain (d ∷ [])))
        × (served http_post ("api" ∷ "trigger-renewal" ∷ [])
            ≡ (passed, endpoint trigger_renewal []))
        × (served http_get ("api" ∷ "keystore" ∷ "export" ∷ [])
            ≡ (passed, endpoint export_keystore []))
        × (served http_post ("api" ∷ "keystore" ∷ "import" ∷ [])
            ≡ (passed, endpoint import_keystore []))
  unfolding String-discrete
  api_reached d hd = (
    front ("version" ∷ []) (word "api" refl, (word "version" refl, tt)) http_get version []
        (simp same refl),
    front ("healthz" ∷ []) (word "api" refl, (word "healthz" refl, tt)) http_get health_check []
        (simp same refl),
    front ("config" ∷ []) (word "api" refl, (word "config" refl, tt)) http_get config []
        (simp same refl),
    front ("certs" ∷ []) (word "api" refl, (word "certs" refl, tt)) http_get certs []
        (simp same refl),
    front ("certs" ∷ d ∷ "private-key" ∷ [])
        (word "api" refl, (word "certs" refl, (hd, (word "private-key" refl, tt)))) http_get
        get_private_key (d ∷ []) (simp same refl),
    front ("certs" ∷ d ∷ []) (word "api" refl, (word "certs" refl, (hd, tt))) http_delete
        delete_cert (d ∷ []) (simp same refl),
    front ("domains" ∷ []) (word "api" refl, (word "domains" refl, tt)) http_get get_domains []
        (simp same refl),
    front ("domains" ∷ []) (word "api" refl, (word "domains" refl, tt)) http_post add_domain []
        (simp same refl),
    front ("domains" ∷ d ∷ []) (word "api" refl, (word "domains" refl, (hd, tt))) http_delete
        remove_domain (d ∷ []) (simp same refl),
    front ("trigger-renewal" ∷ []) (word "api" refl, (word "trigger-renewal" refl, tt)) http_post
        trigger_renewal [] (simp same refl),
    front ("keystore" ∷ "export" ∷ [])
        (word "api" refl, (word "keystore" refl, (word "export" refl, tt))) http_get export_keystore
        [] (simp same refl),
    front ("keystore" ∷ "import" ∷ [])
        (word "api" refl, (word "keystore" refl, (word "import" refl, tt))) http_post
        import_keystore [] (simp same refl),
  )
