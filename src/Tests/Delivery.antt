-- ===== src/Tests/Delivery.antt =====
-- A certificate on its way from a memory keystore to the files of the fetcher.
use go_acme_store.Common.{
  String, String-discrete, ◌≡◌, ◌≢◌, ◌⊎◌, refl, true, false, err, map, List, none, some, [], ◌∷◌,
  Result, ok, arith, inl,
}
use text.Mathlib.TextEquality.{eq_iff}
use go_acme_store.Common.Dict.{lookup, insert}
use go_acme_store.Host.Paths.{join, push, split_path}
use go_acme_store.Host.Files.{done}
use go_acme_store.Keystore.Types.{CertAndKey}
use go_acme_store.Keystore.Memory.{
  Memory, memory, get_cert_and_key, get_managed_domains, get_all_domains,
}
use go_acme_store.Api.Response.{Body, CertInfo, domains, certs, private_key, with_keystore}
use go_acme_store.Api.Certs.{
  cert_info, shown_status, listed_cert, cert_infos, handler_certs, handler_get_private_key,
}
use go_acme_store.Api.Domains.{handler_get_domains}
use go_acme_store.Fetcher.Client.{ApiCertInfo, certs_by_name, get_all_certs, get_private_key}
use go_acme_store.Fetcher.Client
use go_acme_store.Fetcher.Keys.{parse_key, key_of_certificate, keys_match, verify_key_pair_match}
use go_acme_store.Fetcher.Files.{
  safe_domain, cert_file, key_file, needs_certificate_update, compare_files,
}
use go_acme_store.Fetcher.Traefik.{TraefikTls}
use go_acme_store.Fetcher.Fetch.{
  full_chain, existing_key, key_for, write_files, update_files, fetch_found, fetch_domain,
  fetch_domains, count, write_traefik, exit_code, perform_fetch,
}
use go_acme_store.Fetcher.Daemon.{answers}
use go_acme_store.Delivery.{api_info, respond, Wire, IsReadBack, server}
use go_acme_store.Routing.Setup.{
  new_app, register, get_fiber_app, add_fiber_middleware_recover, add_fiber_middleware_logger,
  add_fiber_middleware_request_id, add_fiber_middleware_compression, add_fiber_middleware_etag,
  add_fiber_middleware_metrics, add_fiber_middleware_favicon,
}
use go_acme_store.Routing.{server_routes, http_server_daemon, answer}
use go_acme_store.Routing.Fetched.{get_route}
use go_acme_store.Routing.Delivered.{served-delivered}
use go_acme_store.Tests.Fiber.{fiber, fiber-IsSound}
use go_acme_store.Host.Viper.{Viper, pos}
use go_acme_store.Tests.FileWorld.{Disk, blank, FilePath-discrete}
use go_acme_store.Tests.Fetcher.{host, host-IsSound, two_files}
use go_acme_store.Tests.World.{account, cert_named}

abbrev cert : CertAndKey
cert = record (cert_named "a") { private_key_pem = "-RSA PRIVATE KEY" }

abbrev store : Memory
store = record { account = account; cert_and_keys = ("a", cert) ∷ []; managed_domains = "a" ∷ [] }

-- The documents that the server sends.
data Document : Type 0 where
  names : List String → Document
  infos : List CertInfo → Document
  key : String → Document
  other : Document

abbrev encode : Body → Document
encode (domains l n) = names l
encode (certs l) = infos l
encode (private_key d k) = key k
encode body = other

abbrev names_of : Document → Result (List String)
names_of (names l) = ok l
names_of document = err "no names"

abbrev certs_of : Document → Result (List ApiCertInfo)
certs_of (infos l) = ok (map api_info l)
certs_of document = err "no certificates"

abbrev key_of_text : Document → Result String
key_of_text (key k) = ok k
key_of_text document = err "no key"

abbrev wire : Wire
wire = record {
  Text = Document;
  encode = encode;
  text_of = λ _. "";
  rest_of = λ _. "";
  show_status = λ _. "200";
  decode_domains = names_of;
  decode_certs = certs_of;
  decode_key = key_of_text;
  decode_error = λ _. err "no error";
}

wire-IsReadBack : IsReadBack wire
wire-IsReadBack = record {
  domains_back = λ l n. refl;
  certs_back = λ l. refl;
  key_back = λ d k. refl;
}

abbrev viper : Viper
viper = record {
  get_string = λ _. "";
  get_bool = λ _. false;
  is_set = λ _. false;
  get_duration = λ _. pos 0;
}

plain : fiber.IsPlain "a"
unfolding split_path
plain = (refl, λ e. ground (arith, eq_iff "a" ""))

here : get_cert_and_key "a" store ≡ ok cert
unfolding get_cert_and_key lookup String-discrete
here = refl

a_given : ◌≢◌ {A = String} "a" ""
a_given e = ground (arith, eq_iff "a" "")

abbrev marshal : TraefikTls → Result String
marshal _ = ok "yaml"

-- The server stands at the root, so that a URL is a path.
abbrev end : Disk
end =
    (perform_fetch host
      (answers
        (server memory (some store) (get_route fiber fiber-IsSound viper "acme-store" (λ url. url))
          wire)
        "/api")
      [] marshal none blank).1

served-delivered_example :
    (chain_text key_text key : String) × (end (cert_file [] "a") ≡ done chain_text)
    × (end (key_file [] "a") ≡ done key_text)
    × (chain_text ≡ "-CERTIFICATE")
    × (key_text ≡ key)
    × ((verify_key_pair_match host.parsers "-CERTIFICATE" key ≡ true) ⊎ (key ≡ "-RSA PRIVATE KEY"))
unfolding answer http_server_daemon get_fiber_app server_routes new_app register
    add_fiber_middleware_recover add_fiber_middleware_logger add_fiber_middleware_request_id
    add_fiber_middleware_compression add_fiber_middleware_etag add_fiber_middleware_metrics
    add_fiber_middleware_favicon perform_fetch exit_code write_traefik fetch_domains count
    certs_by_name Client.get_managed_domains get_all_certs get_private_key insert respond
    handler_certs cert_infos listed_cert cert_info shown_status api_info handler_get_private_key
    handler_get_domains with_keystore get_managed_domains get_all_domains get_cert_and_key
    fetch_domain fetch_found update_files write_files key_for existing_key full_chain lookup
    needs_certificate_update compare_files verify_key_pair_match parse_key key_of_certificate
    keys_match cert_file key_file safe_domain join push split_path String-discrete FilePath-discrete
served-delivered_example =
    served-delivered memory store "a" cert here refl a_given host host-IsSound [] marshal none wire
      wire-IsReadBack fiber fiber-IsSound viper "acme-store" (λ url. url) "/api" (λ p. refl) plain
      blank ("a" ∷ []) ("a" ∷ []) refl refl refl refl (inl refl, tt) refl refl
      (λ e. ground (arith, eq_iff "-CERTIFICATE" ""))
      (λ e. ground (arith, eq_iff "-CERTIFICATE" "")) two_files ((λ ne. absurd (ne refl)), tt) tt
      refl
