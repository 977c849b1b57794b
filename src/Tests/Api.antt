-- ===== src/Tests/Api.antt =====
-- The health check and the configuration that is sent.
use go_acme_store.Common.{
  String, ◌≡◌, ◌↔◌, false, List, [], ok, some, contains, arith, ◌==◌, if◌then◌else◌,
}
use go_acme_store.Host.Viper.{Viper, pos}
use go_acme_store.Keystore.Memory.{Memory, memory, get_managed_domains}
use go_acme_store.Api.Health.{handler_health_check, health_iff, secrets}
use go_acme_store.Tests.World.{account}

abbrev empty : Memory
empty = record { account = account; cert_and_keys = []; managed_domains = [] }

health_iff_example :
    ((handler_health_check memory (some empty)).status ≡ 200)
    ↔ ((m : Memory) × (l : List String) × (some empty ≡ some m) × (get_managed_domains m ≡ ok l))
health_iff_example = health_iff memory (some empty)

-- A configuration with this Vault token.
abbrev with_token : String → Viper
with_token token = record {
  get_string = λ k. if k == "vault.token" then token else "x";
  get_bool = λ _. false;
  is_set = λ _. false;
  get_duration = λ _. pos 0;
}

same_but_token :
    (k : String)
    → contains secrets k ≡ false
    → (with_token "s.1").get_string k ≡ (with_token "s.2").get_string k
same_but_token k h = ground arith
