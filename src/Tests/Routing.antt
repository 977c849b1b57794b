-- ===== src/Tests/Routing.antt =====
-- The routes of the server over a router that matches segment by segment.
use text.Mathlib.TextEquality.{eq_iff}
use go_acme_store.Common.{false, ◌≡◌, refl, [], ◌∷◌, arith}
use go_acme_store.Host.Paths.{split_path}
use go_acme_store.Host.Viper.{Viper, pos}
use go_acme_store.Routing.Setup.{
  http_get, http_post, http_delete, version, health_check, config, certs, get_private_key,
  delete_cert, get_domains, add_domain, remove_domain, trigger_renewal, export_keystore,
  import_keystore,
}
use go_acme_store.Routing.{endpoint}
use go_acme_store.Routing.Reach.{passed, served, api_reached}
use go_acme_store.Tests.Fiber.{fiber, fiber-IsSound}

abbrev empty : Viper
empty = record {
  get_string = λ _. "";
  get_bool = λ _. false;
  is_set = λ _. false;
  get_duration = λ _. pos 0;
}

plain : fiber.IsPlain "a.example"
unfolding split_path
plain = (refl, λ e. ground (arith, eq_iff "a.example" ""))

api_reached_example :
    (served fiber fiber-IsSound empty "acme-store" http_get ("api" ∷ "version" ∷ [])
      ≡ (passed, endpoint version []))
    × (served fiber fiber-IsSound empty "acme-store" http_get ("api" ∷ "healthz" ∷ [])
        ≡ (passed, endpoint health_check []))
    × (served fiber fiber-IsSound empty "acme-store" http_get ("api" ∷ "config" ∷ [])
        ≡ (passed, endpoint config []))
    × (served fiber fiber-IsSound empty "acme-store" http_get ("api" ∷ "certs" ∷ [])
        ≡ (passed, endpoint certs []))
    × (served fiber fiber-IsSound empty "acme-store" http_get
          ("api" ∷ "certs" ∷ "a.example" ∷ "private-key" ∷ [])
        ≡ (passed, endpoint get_private_key ("a.example" ∷ [])))
    × (served fiber fiber-IsSound empty "acme-store" http_delete
          ("api" ∷ "certs" ∷ "a.example" ∷ [])
        ≡ (passed, endpoint delete_cert ("a.example" ∷ [])))
    × (served fiber fiber-IsSound empty "acme-store" http_get ("api" ∷ "domains" ∷ [])
        ≡ (passed, endpoint get_domains []))
    × (served fiber fiber-IsSound empty "acme-store" http_post ("api" ∷ "domains" ∷ [])
        ≡ (passed, endpoint add_domain []))
    × (served fiber fiber-IsSound empty "acme-store" http_delete
          ("api" ∷ "domains" ∷ "a.example" ∷ [])
        ≡ (passed, endpoint remove_domain ("a.example" ∷ [])))
    × (served fiber fiber-IsSound empty "acme-store" http_post ("api" ∷ "trigger-renewal" ∷ [])
        ≡ (passed, endpoint trigger_renewal []))
    × (served fiber fiber-IsSound empty "acme-store" http_get ("api" ∷ "keystore" ∷ "export" ∷ [])
        ≡ (passed, endpoint export_keystore []))
    × (served fiber fiber-IsSound empty "acme-store" http_post ("api" ∷ "keystore" ∷ "import" ∷ [])
        ≡ (passed, endpoint import_keystore []))
api_reached_example = api_reached fiber fiber-IsSound empty "acme-store" "a.example" plain
