-- ===== src/Routing/Setup.antt =====
-- pkg/httpserver/fiber.go: the app with its middleware, in the order of their registration.
use go_acme_store.Common.{ℕ, ◌*◌, String, ◌<>◌, Bool, true, false, List, [], ◌∷◌, ◌++◌}

pub data Method : Type 0 where
  http_get : Method
  http_post : Method
  http_delete : Method

pub data Middleware : Type 0 where
  recover : Middleware
  -- the format of the access log
  logger : String → Middleware
  -- the header
  request_id : String → Middleware
  -- with `LevelBestSpeed`
  compress : Middleware
  -- weak
  etag : Bool → Middleware
  favicon : Middleware
  -- the embedded files below a path, with a listing or not
  static_files : String → Bool → Middleware

-- The handlers.
pub data Endpoint : Type 0 where
  -- with the title of its page
  monitor : String → Endpoint
  root_redirect : Endpoint
  version : Endpoint
  health_check : Endpoint
  config : Endpoint
  certs : Endpoint
  get_private_key : Endpoint
  delete_cert : Endpoint
  get_domains : Endpoint
  add_domain : Endpoint
  remove_domain : Endpoint
  trigger_renewal : Endpoint
  export_keystore : Endpoint
  import_keystore : Endpoint
  web_ui : Endpoint

pub data Registered : Type 0 where
  middleware : Middleware → Registered
  -- a middleware for the paths below a prefix
  below : String → Middleware → Registered
  route : Method → String → Endpoint → Registered

-- `fiber.Config`. Times are nanoseconds.
pub record FiberConfig : Type 0 where
  pub app_name : String
  pub prefork : Bool
  pub server_header : String
  pub strict_routing : Bool
  pub case_sensitive : Bool
  pub read_timeout : ℕ
  pub idle_timeout : ℕ
  pub disable_startup_message : Bool
  pub enable_print_routes : Bool
  pub proxy_header : String

pub record App : Type 0 where
  pub config : FiberConfig
  pub registered : List Registered

unfoldable pub register : Registered → App → App
register r app = record app { registered = app.registered ++ (r ∷ []) }

abbrev pub second : ℕ
second = 1000000000

abbrev pub access_log_format : String
access_log_format =
    "accessLog: ${host} - ${respHeader:X-CloudOps-Request-Id} - [${time}] ${method} ${path} ${status} ${bytesSent} ${latency} \"${ua}\"\n"

unfoldable pub add_fiber_middleware_recover : App → App
unfolding register
add_fiber_middleware_recover = register (middleware recover)

unfoldable pub add_fiber_middleware_logger : App → App
unfolding register
add_fiber_middleware_logger = register (middleware (logger access_log_format))

unfoldable pub add_fiber_middleware_request_id : App → App
unfolding register
add_fiber_middleware_request_id = register (middleware (request_id "X-CloudOps-Request-Id"))

unfoldable pub add_fiber_middleware_compression : App → App
unfolding register
add_fiber_middleware_compression = register (middleware compress)

unfoldable pub add_fiber_middleware_etag : App → App
unfolding register
add_fiber_middleware_etag = register (middleware (etag true))

unfoldable pub add_fiber_middleware_metrics : App → App
unfolding register
add_fiber_middleware_metrics app =
    register (route http_get "/metrics" (monitor (app.config.app_name <> " Metrics UI"))) app

unfoldable pub add_fiber_middleware_favicon : App → App
unfolding register
add_fiber_middleware_favicon = register (middleware favicon)

-- `fiber.New`
unfoldable pub new_app : String → App
new_app app_name = record {
  config = record {
    app_name = app_name;
    prefork = false;
    server_header = "cloudops-tools";
    strict_routing = false;
    case_sensitive = false;
    read_timeout = second * 3;
    idle_timeout = second * 20;
    disable_startup_message = true;
    enable_print_routes = false;
    proxy_header = "X-Forwarded-For";
  };
  registered = [];
}

unfoldable pub get_fiber_app : String → App
unfolding new_app add_fiber_middleware_recover add_fiber_middleware_logger
    add_fiber_middleware_request_id add_fiber_middleware_compression add_fiber_middleware_etag
    add_fiber_middleware_metrics add_fiber_middleware_favicon
get_fiber_app app_name = add_fiber_middleware_favicon (
    add_fiber_middleware_metrics (
      add_fiber_middleware_etag (
        add_fiber_middleware_compression (
          add_fiber_middleware_request_id
            (add_fiber_middleware_logger (add_fiber_middleware_recover (new_app app_name)))))))
