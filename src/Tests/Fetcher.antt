-- ===== src/Tests/Fetcher.antt =====
-- The fetcher on a disk.
use go_acme_store.Common.{
  ℕ, ◌≢◌, ◌*◌, ◌≤◌, String, String-discrete, ◌≡◌, ◌≢◌, ◌⊎◌, refl, Bool, true, false, [], ◌∷◌, ok,
  err, some, Result, arith,
}
use text.Mathlib.TextEquality.{eq_iff}
use go_acme_store.Common.Dict.{Dict, lookup}
use go_acme_store.Host.Paths.{FilePath, join, push, split_path}
use go_acme_store.Host.Files.{IoResult, done}
use go_acme_store.Host.Viper.{Viper, pos, negsuc}
use go_acme_store.Fetcher.Client.{ApiCertInfo}
use go_acme_store.Fetcher.Keys.{
  Parsers, rsa_public, rsa_private, parse_key, key_of_certificate, keys_match,
  verify_key_pair_match,
}
use go_acme_store.Fetcher.Files.{
  Host, IsSound, safe_domain, cert_file, key_file, needs_certificate_update, compare_files,
}
use go_acme_store.Fetcher.Settings.{check_interval, check_interval_lem, second}
use go_acme_store.Fetcher.Fetch.{
  Answers, skipped, full_chain, existing_key, key_for, write_files, update_files, fetch_found,
  fetch_domain, fetch_domains, count, write_traefik, exit_code, perform_fetch,
}
use go_acme_store.Fetcher.Traefik.{
  TraefikTls, is_included, included, traefik_certificates, generate_traefik_config,
}
use go_acme_store.Fetcher.Fetch.Current.{IsCurrent}
use go_acme_store.Fetcher.Fetch.Complete.{Apart}
use go_acme_store.Fetcher.Fetch.Success.{ApartFile, fetch_success}
use go_acme_store.Fetcher.Fetch.Laws.{refetch_skips}
use go_acme_store.Tests.FileWorld.{Disk, os, os-IsFaithful, blank, FilePath-discrete}
use go_acme_store.Tests.World.{pki}

abbrev parsers : Parsers
parsers = record {
  Bytes = Unit;
  decode_pem = pki.decode_pem;
  certificate_key = λ _. ok (rsa_public 33 5);
  parse_pkcs1 = λ _. ok (rsa_private 33 5);
  parse_ec = λ _. err "not a key";
  parse_pkcs8 = λ _. err "not a key";
}

abbrev is_done : IoResult String → Bool
is_done (done text) = true
is_done _ = false

abbrev pub host : Host
host = record {
  os = os;
  exists = λ p d. is_done (d p);
  trim_space = λ text. text;
  parsers = parsers;
}

pub host-IsSound : IsSound host
host-IsSound = record { files = os-IsFaithful; exists-read = λ p text d e. ground arith }

abbrev api : Answers
api = record {
  managed_domains = ok ("a" ∷ []);
  all_certs = ok [];
  private_key = λ domain. ok "-RSA PRIVATE KEY";
}

abbrev silent : Answers
silent = record api { private_key = λ domain. err "no answer" }

abbrev pub info : ApiCertInfo
info = record {
  common_name = "a";
  leaf_cert_pem = "-CERTIFICATE";
  cert_chain_pem = "-CERTIFICATE";
  managed = true;
  status = "issued";
}

abbrev certs : Dict ApiCertInfo
certs = ("a", info) ∷ []

pub two_files : cert_file [] "a" ≢ key_file [] "a"
unfolding cert_file key_file safe_domain join push split_path String-discrete
two_files e = ground (arith, eq_iff "a_cert-chain.pem" "a_key.pem")

abbrev after : Disk
after = (fetch_domain host api [] certs "a" blank).1

refetch_skips_example : fetch_domain host silent [] certs "a" after ≡ (skipped, after)
unfolding fetch_domain fetch_found update_files write_files key_for existing_key full_chain lookup
    needs_certificate_update compare_files verify_key_pair_match parse_key key_of_certificate
    keys_match cert_file key_file safe_domain join push split_path String-discrete FilePath-discrete
refetch_skips_example =
    refetch_skips host host-IsSound api silent [] "a" "-RSA PRIVATE KEY" certs info blank after
      two_files refl refl (ground (arith, eq_iff "-RSA PRIVATE KEY" "")) refl refl

-- The server knows two domains, and a Traefik file is wanted.
abbrev serving : Answers
serving = record api {
  managed_domains = ok ("b" ∷ "a" ∷ []);
  all_certs = ok (("b", record info { common_name = "b" }) ∷ certs);
}

abbrev traefik : FilePath
traefik = "traefik.yml" ∷ []

two_domains : Apart [] "a" "b"
unfolding cert_file key_file safe_domain join push split_path String-discrete
two_domains ne = (
  λ e. ground (arith, eq_iff "a_cert-chain.pem" "b_cert-chain.pem"),
  λ e. ground (arith, eq_iff "a_cert-chain.pem" "b_key.pem"),
  λ e. ground (arith, eq_iff "a_key.pem" "b_cert-chain.pem"),
  λ e. ground (arith, eq_iff "a_key.pem" "b_key.pem"),
)

third_file : ApartFile [] "a" (some traefik)
unfolding cert_file key_file safe_domain join push split_path String-discrete
third_file = (
  λ e. ground (arith, eq_iff "a_cert-chain.pem" "traefik.yml"),
  λ e. ground (arith, eq_iff "a_key.pem" "traefik.yml"),
)

abbrev marshal : TraefikTls → Result String
marshal _ = ok "yaml"

fetch_success_example :
    (cs : Dict ApiCertInfo) × (c : ApiCertInfo) × (serving.all_certs ≡ ok cs)
    × (lookup "a" cs ≡ some c)
    × ((is_included c ≡ false)
        ⊎ IsCurrent host host-IsSound serving [] "a"
            (full_chain c)
            (perform_fetch host serving [] marshal (some traefik) blank).1)
unfolding perform_fetch exit_code write_traefik generate_traefik_config traefik_certificates
    included is_included fetch_domains count fetch_domain fetch_found update_files write_files
    key_for existing_key full_chain lookup needs_certificate_update compare_files
    verify_key_pair_match parse_key key_of_certificate keys_match cert_file key_file safe_domain
    join push split_path String-discrete FilePath-discrete
fetch_success_example =
    fetch_success host host-IsSound serving [] marshal (some traefik) blank ("b" ∷ "a" ∷ []) "a"
      refl refl two_files (two_domains, (λ ne. absurd (ne refl), tt)) third_file refl

-- A duration below zero, which is given as one that is too short.
abbrev negative : Viper
negative = record {
  get_string = λ _. "";
  get_bool = λ _. false;
  is_set = λ _. true;
  get_duration = λ _. negsuc 0;
}

check_interval_lem_example :
    (n : ℕ) × (check_interval negative ≡ pos n)
    × (30 * second ≤ n)
    × ((negsuc 0 ≡ pos n)
        ⊎ ((negsuc 0 ≡ pos 0) × (n ≡ 300 * second))
        ⊎ ((negsuc 0 ≢ pos 0) × (true ≡ true) × (n ≡ 30 * second)))
check_interval_lem_example = check_interval_lem negative
