-- ===== src/Tests/Daemon.antt =====
-- The fetcher as a daemon, over a server that is down at first.
use go_acme_store.Common.{
  String, String-discrete, ◌≡◌, refl, ◌⊎◌, Bool, true, false, some, [], ◌∷◌, Result, ok, err,
  if◌then◌else◌,
}
use go_acme_store.Common.Dict.{Dict, lookup, insert}
use go_acme_store.Host.Paths.{FilePath, join, push, split_path}
use go_acme_store.Host.Viper.{pos}
use go_acme_store.Fetcher.Client.{
  Http, ApiCertInfo, certs_by_name, get_managed_domains, get_all_certs, get_private_key,
}
use go_acme_store.Fetcher.Keys.{parse_key, key_of_certificate, keys_match, verify_key_pair_match}
use go_acme_store.Fetcher.Files.{
  safe_domain, cert_file, key_file, needs_certificate_update, compare_files,
}
use go_acme_store.Fetcher.Traefik.{TraefikTls, is_included}
use go_acme_store.Fetcher.Fetch.{
  full_chain, existing_key, key_for, write_files, update_files, fetch_found, fetch_domain,
  fetch_domains, count, write_traefik, exit_code, perform_fetch,
}
use go_acme_store.Fetcher.Fetch.Current.{IsCurrent}
use go_acme_store.Fetcher.Daemon.{
  answers, interrupted, tick, signal, traefik_path, fetch_at, run_daemon,
}
use go_acme_store.Fetcher.Daemon.Recovery.{daemon_recovers}
use go_acme_store.Tests.FileWorld.{Disk, blank, FilePath-discrete}
use go_acme_store.Tests.Fetcher.{host, host-IsSound, info, two_files}

abbrev http : Bool → Http
http up = record {
  Body = Unit;
  get = λ url. if up then ok (200, tt) else err "connection refused";
  text_of = λ _. "";
  rest_of = λ _. "";
  show_status = λ _. "200";
  decode_domains = λ _. ok ("a" ∷ []);
  decode_certs = λ _. ok (info ∷ []);
  decode_key = λ _. ok "-RSA PRIVATE KEY";
  decode_error = λ _. err "no message";
}

abbrev path : String → FilePath
path s = []

abbrev marshal : TraefikTls → Result String
marshal _ = ok "yaml"

daemon_recovers_example :
    (end : Disk) × (certs : Dict ApiCertInfo) × (c : ApiCertInfo) × (run_daemon host path marshal
        http "api" "certs" ""
        (pos 300)
        false
        (tick false ∷ tick true ∷ signal ∷ [])
        blank
      ≡ interrupted (pos 300) end)
    × (get_all_certs (http true) "api" ≡ ok certs)
    × (lookup "a" certs ≡ some c)
    × ((is_included c ≡ false)
        ⊎ IsCurrent host host-IsSound (answers (http true) "api") [] "a" (full_chain c) end)
unfolding perform_fetch exit_code write_traefik fetch_domains count traefik_path fetch_at
    certs_by_name get_managed_domains get_all_certs get_private_key insert fetch_domain fetch_found
    update_files write_files key_for existing_key full_chain lookup needs_certificate_update
    compare_files verify_key_pair_match parse_key key_of_certificate keys_match cert_file key_file
    safe_domain join push split_path String-discrete FilePath-discrete
daemon_recovers_example =
    daemon_recovers host path marshal http "api" "certs" "" host-IsSound (pos 300) false true
      (false ∷ []) blank ("a" ∷ []) "a" refl refl two_files ((λ ne. absurd (ne refl)), tt) tt refl
