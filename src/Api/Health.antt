-- ===== src/Api/Health.antt =====
-- `handlerHealthCheck`, `handlerVersion` and `handlerConfig`.
use go_acme_store.Common.{
  String, ◌≡◌, refl, String-discrete, Bool, true, false, Option, none, some, List, [], ◌∷◌, ok, err,
  ◌==◌, if◌then◌else◌, arith, Result-cases, inl, inr, ◌↔◌, contains,
}
use go_acme_store.Host.Viper.{Viper}
use go_acme_store.Keystore.{Keystore}
use go_acme_store.Api.Response.{health, Response, reply}
use go_acme_store.Worker.{ensure_keystore}

module _ (K : Keystore) where
  unfoldable pub handler_health_check : Option K.State → Response
  unfolding ensure_keystore
  handler_health_check ks = elim (ensure_keystore ks) [
    | err e ↦ reply 503 (health "degraded" false "unavailable" none)
    | ok s ↦ elim (K.get_managed_domains s) [
      | ok names ↦ reply 200 (health "healthy" true "healthy" none)
      | err e ↦ reply 503 (health "degraded" true "error" (some e))
    ]
  ]

  -- The health check answers 200 exactly when there is a keystore and its list of managed domains
  -- can be read.
  pub health_iff :
      (ks : Option K.State)
      → ((handler_health_check ks).status ≡ 200)
        ↔ ((s : K.State) × (l : List String) × (ks ≡ some s) × (K.get_managed_domains s ≡ ok l))
  unfolding handler_health_check
  health_iff none = (λ h. absurd (ground arith), λ (s, l, p, q). absurd (ground arith))
  health_iff (some s) = elim (Result-cases (K.get_managed_domains s)) [
    | inl (l, e) ↦ (λ h. (s, l, refl, e), λ x. ground arith)
    | inr (m, e) ↦ (λ h. absurd (ground arith), λ (t, l, p, q). absurd (ground arith))
  ]

-- An entry of the configuration that is sent.
pub data Setting : Type 0 where
  text : String → String → Setting
  flag : String → Bool → Setting

unfoldable pub backend_settings : Viper → List Setting
backend_settings v =
    let backend = v.get_string "keystore.backend" in
    if backend == "vault"
    then text "vault.address" (v.get_string "vault.address")
      ∷ text "vault.kv2_mount" (v.get_string "vault.kv2_mount")
      ∷ text "vault.kv2_secret_path" (v.get_string "vault.kv2_secret_path")
      ∷ flag "vault.tls_skip_verify" (v.get_bool "vault.tls_skip_verify")
      ∷ []
    else if backend == "filesystem"
    then text "filesystem.base_path" (v.get_string "filesystem.base_path") ∷ []
    else []

-- The body of `handlerConfig`, with the path of each entry.
unfoldable pub handler_config : Viper → List Setting
unfolding backend_settings
handler_config v =
    text "log.level" (v.get_string "log.level")
    ∷ text "server.bind_address" (v.get_string "server.bind_address")
    ∷ text "server.bind_port" (v.get_string "server.bind_port")
    ∷ text "acme.directory" (v.get_string "acme.directory")
    ∷ text "acme.account_email" (v.get_string "acme.account_email")
    ∷ text "acme.dns_server" (v.get_string "acme.dns_server")
    ∷ text "acme.dns_provider" (v.get_string "acme.dns_provider")
    ∷ text "keystore.backend" (v.get_string "keystore.backend")
    ∷ backend_settings v

abbrev pub secrets : List String
secrets = "vault.token" ∷ "acme.digitalocean_token" ∷ "acme.powerdns_api_token" ∷ []

-- The configuration that is sent does not depend on the tokens: two configurations that agree on
-- every other key give the same response.
pub config_hides_secrets :
    (v w : Viper)
    → ((k : String) → contains secrets k ≡ false → v.get_string k ≡ w.get_string k)
    → ((k : String) → v.get_bool k ≡ w.get_bool k)
    → handler_config v ≡ handler_config w
unfolding handler_config String-discrete
config_hides_secrets v w same flags = rw (
  same "log.level" refl,
  same "server.bind_address" refl,
  same "server.bind_port" refl,
  same "acme.directory" refl,
  same "acme.account_email" refl,
  same "acme.dns_server" refl,
  same "acme.dns_provider" refl,
  same "keystore.backend" refl,
  same "vault.address" refl,
  same "vault.kv2_mount" refl,
  same "vault.kv2_secret_path" refl,
  flags "vault.tls_skip_verify",
  same "filesystem.base_path" refl,
)
