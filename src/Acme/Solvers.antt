-- ===== src/Acme/Solvers.antt =====
-- pkg/acme/solvers.go. A solver is the settings that it is built from.
use go_acme_store.Common.{String, ◌<>◌, List, [], ◌∷◌, Result, ok, err, wrap, ◌==◌, if◌then◌else◌}
use go_acme_store.Host.Viper.{Viper}

pub data Provider : Type 0 where
  digitalocean : String → Provider
  acmedns : String → Provider
  powerdns : String → String → String → Provider

pub record Solver : Type 0 where
  pub resolvers : List String
  pub provider : Provider

-- `if dnsServer := viper.GetString("acme.dns_server"); dnsServer != "" { … }`
unfoldable pub resolvers_of : Viper → List String
resolvers_of v =
    let server = v.get_string "acme.dns_server" in if server == "" then [] else server ∷ []

unfoldable pub get_digitalocean_dns_solver : Viper → Result Solver
unfolding resolvers_of
get_digitalocean_dns_solver v =
    let token = v.get_string "acme.digitalocean_token" in
    if token == ""
    then err "DigitalOcean DNS provider requires 'acme.digitalocean_token' to be configured"
    else ok (record { resolvers = resolvers_of v; provider = digitalocean token })

unfoldable pub get_acmedns_solver : Viper → Result Solver
unfolding resolvers_of
get_acmedns_solver v =
    let url = v.get_string "acme.acmedns_server_url" in
    if url == ""
    then err "ACME-DNS provider requires 'acme.acmedns_server_url' to be configured"
    else ok (record { resolvers = resolvers_of v; provider = acmedns url })

unfoldable pub get_powerdns_solver : Viper → Result Solver
unfolding resolvers_of
get_powerdns_solver v =
    let url = v.get_string "acme.powerdns_server_url" in
    let token = v.get_string "acme.powerdns_api_token" in
    let id = v.get_string "acme.powerdns_server_id" in
    if url == ""
    then err "PowerDNS provider requires 'acme.powerdns_server_url' to be configured"
    else if token == ""
    then err "PowerDNS provider requires 'acme.powerdns_api_token' to be configured"
    else if id == ""
    then err "PowerDNS provider requires 'acme.powerdns_server_id' to be configured"
    else ok (record { resolvers = resolvers_of v; provider = powerdns url token id })

abbrev initialized : String → Result Solver → Result Solver
initialized name = wrap ("failed to initialize DNS provider '" <> (name <> "': "))

-- The `switch` of `RenewCertIfNeeded`, with the error of the default case and the wrapped errors
-- of the others.
unfoldable pub get_solver : Viper → Result Solver
unfolding get_digitalocean_dns_solver get_acmedns_solver get_powerdns_solver
get_solver v =
    let name = v.get_string "acme.dns_provider" in
    if name == "digitalocean"
    then initialized name (get_digitalocean_dns_solver v)
    else if name == "acmedns"
    then initialized name (get_acmedns_solver v)
    else if name == "powerdns"
    then initialized name (get_powerdns_solver v)
    else err ("unknown or unconfigured DNS provider: " <> name)
