-- ===== src/Routing/Fetched.antt =====
-- The requests of the fetcher reach the handlers that it means.
use text.Mathlib.TextLemmas.{append_assoc}
use go_acme_store.Common.{String, ◌<>◌, ◌≡◌, refl, ap, ◌∙◌, Option, none, some, [], ◌∷◌}
use go_acme_store.Host.Viper.{Viper}
use go_acme_store.Delivery.{Get, healthz, domains_list, certs_list, key_of, IsRouter}
use go_acme_store.Routing.Setup.{http_get, health_check, certs, get_private_key, get_domains}
use go_acme_store.Routing.{http_server_daemon, Fiber, Answerer, endpoint, answer}
use go_acme_store.Routing.Segments.{path_of, IsSound}
use go_acme_store.Routing.Reach.{api_reached}

-- The handlers that the fetcher uses.
abbrev pub get_of : Answerer → Option Get
get_of (endpoint health_check values) = some healthz
get_of (endpoint get_domains values) = some domains_list
get_of (endpoint certs values) = some certs_list
get_of (endpoint get_private_key (domain ∷ values)) = some (key_of domain)
get_of other = none

module _ (F : Fiber) (sound : IsSound F) (v : Viper) (app_name : String)
    -- the path of a URL
    (path_in : String → String) where
  abbrev pub get_route : String → Option Get
  get_route url =
      get_of (answer F ((http_server_daemon v app_name).0.registered) http_get (path_in url)).1

  module _ (api_url : String) (at_api : (p : String) → path_in (api_url <> p) ≡ "/api" <> p) where
    key_path :
        (a : String)
        → "/api" <> ("/certs/" <> (a <> "/private-key"))
          ≡ path_of ("api" ∷ "certs" ∷ a ∷ "private-key" ∷ [])
    key_path a =
        let rest : String = a <> "/private-key" in
        append_assoc "/" "api" ("/certs/" <> rest)
        ∙ ap (λ x. "/" <> ("api" <> x))
            (append_assoc "/" "certs/" rest ∙ ap (λ x. "/" <> x) (append_assoc "certs" "/" rest))

    -- Over a router that matches patterns segment by segment, as fiber documents it, and
    -- middleware that passes the requests of the API on, where the API URL of the fetcher is the
    -- /api of this server: the three URLs of the fetcher lead to the handlers of the domains, of
    -- the certificates and of the private key of the domain. The domain is one plain segment.
    pub get_route-IsRouter : (a : String) → F.IsPlain a → IsRouter api_url a get_route
    get_route-IsRouter a ha =
        let (_, _, _, certs_at, key_at, _, domains_at, _, _, _, _, _) =
          api_reached F sound v app_name a ha in
        record {
          to_domains = rw (at_api "/domains", domains_at) refl;
          to_certs = rw (at_api "/certs", certs_at) refl;
          to_key = rw (at_api ("/certs/" <> (a <> "/private-key")), key_path a, key_at) refl;
        }
