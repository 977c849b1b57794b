-- ===== src/Routing.antt =====
-- `httpServerDaemon` of cmd/acme-store/httpserver.go: the routes, and who answers a request. The fiber
-- library is a parameter: how a pattern is matched, and whether a middleware answers by itself.
pub mod Setup
pub mod Segments
pub mod Reach
pub mod Fetched
pub mod Delivered
use go_acme_store.Common.{
  ℕ, String, ◌<>◌, Bool, true, false, Option, none, some, List, [], ◌∷◌, ◌++◌, Result, ok, err,
  if◌then◌else◌,
}
use go_acme_store.Host.Viper.{Viper}
use go_acme_store.Meta.{Runtime, Build, AppMetadata, get_app_metadata}
use go_acme_store.Routing.Setup.{
  App, Endpoint, Method, Middleware, Registered, add_domain, below, certs, config, delete_cert,
  export_keystore, get_domains, get_fiber_app, get_private_key, health_check, http_delete, http_get,
  http_post, import_keystore, middleware, remove_domain, root_redirect, route, static_files,
  trigger_renewal, version, web_ui,
}

-- A group puts its prefix before the paths of its routes.
abbrev pub api : Method → String → Endpoint → Registered
api m path e = route m ("/api" <> path) e

-- The routes of `httpServerDaemon`.
unfoldable pub server_routes : List Registered
server_routes =
    route http_get "/" root_redirect
    ∷ api http_get "/version" version
    ∷ api http_get "/healthz" health_check
    ∷ api http_get "/config" config
    ∷ api http_get "/certs" certs
    ∷ api http_get "/certs/:domain/private-key" get_private_key
    ∷ api http_delete "/certs/:domain" delete_cert
    ∷ api http_get "/domains" get_domains
    ∷ api http_post "/domains" add_domain
    ∷ api http_delete "/domains/:domain" remove_domain
    ∷ api http_post "/trigger-renewal" trigger_renewal
    ∷ api http_get "/keystore/export" export_keystore
    ∷ api http_post "/keystore/import" import_keystore
    ∷ below "/ui/static" (static_files "static" false)
    ∷ route http_get "/ui/" web_ui
    ∷ []

-- The app that `httpServerDaemon` starts, and the address on which it listens.
unfoldable pub http_server_daemon : Viper → String → App × String
unfolding get_fiber_app server_routes
http_server_daemon v app_name =
    let app = get_fiber_app app_name in
    (
      record app { registered = app.registered ++ server_routes },
      v.get_string "server.bind_address" <> (":" <> v.get_string "server.bind_port"),
    )

pub record Fiber : Type 1 where
  -- The values of the parameters, where the pattern matches the path.
  pub matched : String → String → Option (List String)
  -- Does the middleware answer the path itself, without the handlers that follow?
  pub answers : Middleware → String → Bool
  -- Does the path stand below the prefix?
  pub is_below : String → String → Bool
  -- Is a segment of a path the segment of a pattern? Case is not looked at.
  pub same : String → String → Bool
  -- A segment that is not empty, with no slash and nothing that is escaped in a URL.
  pub IsPlain : String → Type 0

-- Who answers a request.
pub data Answerer : Type 0 where
  endpoint : Endpoint → List String → Answerer
  by_middleware : Middleware → Answerer
  nobody : Answerer

abbrev pub same_method : Method → Method → Bool
same_method http_get http_get = true
same_method http_post http_post = true
same_method http_delete http_delete = true
same_method _ _ = false

abbrev pub through : Middleware → List Middleware × Answerer → List Middleware × Answerer
through m (ms, a) = (m ∷ ms, a)

-- What is registered is tried in order. The middleware that the request goes through, and who answers
-- it.
unfoldable pub answer : Fiber → List Registered → Method → String → List Middleware × Answerer
answer F [] m path = ([], nobody)
answer F (middleware w ∷ rest) m path =
    let later = answer F rest m path in
    if F.answers w path then ([], by_middleware w) else through w later
answer F (below prefix w ∷ rest) m path =
    let later = answer F rest m path in
    if F.is_below prefix path
    then (if F.answers w path then ([], by_middleware w) else through w later)
    else later
answer F (route m' pattern e ∷ rest) m path =
    let later = answer F rest m path in
    if same_method m' m
    then (elim (F.matched pattern path) [ some values ↦ ([], endpoint e values) | none ↦ later ])
    else later

-- The handlers that touch neither keystore nor configuration: the build's metadata with the status,
-- where the redirect goes with its status, and the page that was read from the embedded files.
unfoldable pub handler_version : Runtime → Build → ℕ × AppMetadata
unfolding get_app_metadata
handler_version r b = (200, get_app_metadata r b)

unfoldable pub handler_root_redirect : String × ℕ
handler_root_redirect = ("/ui", 301)

pub record Page : Type 0 where
  pub status : ℕ
  pub content_type : Option String
  pub body : String

unfoldable pub handler_web_ui : Result String → Page
handler_web_ui (err e) = record { status = 500; content_type = none; body = "Failed to load UI" }
handler_web_ui (ok html) = record { status = 200; content_type = some "text/html"; body = html }
