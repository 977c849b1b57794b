-- ===== src/Fetcher/Traefik.antt =====
-- `generateTraefikConfig`. The YAML encoder is a parameter.
use go_acme_store.Common.{
  String, Bool, not, ◌&&◌, ◌||◌, none, some, List, [], ◌∷◌, ◌++◌, Result, Effect, ◌==◌,
  if◌then◌else◌, reads, wrapped, fail, ◌>>=◌,
}
use go_acme_store.Common.Dict.{Dict, lookup}
use go_acme_store.Host.Paths.{FilePath}
use go_acme_store.Fetcher.Client.{ApiCertInfo}
use go_acme_store.Fetcher.Files.{Host, cert_file, key_file}

pub record TraefikCertificate : Type 0 where
  pub cert : FilePath
  pub key : FilePath

-- The TLS options are the same in every file: `default` with `VersionTLS12` and `mintls13` with
-- `VersionTLS13`.
pub record TraefikTls : Type 0 where
  pub options : Dict String
  pub certificates : List TraefikCertificate

-- The certificate is managed, issued, and not empty.
unfoldable pub is_included : ApiCertInfo → Bool
is_included c =
    not (not c.managed || (not (c.status == "issued") && not (c.status == "")))
    && not (c.leaf_cert_pem == "")

unfoldable pub included : FilePath → Dict ApiCertInfo → String → List TraefikCertificate
unfolding is_included
included dir certs domain = elim (lookup domain certs) [
  | none ↦ []
  | some c ↦
      if is_included c
      then record { cert = cert_file dir domain; key = key_file dir domain } ∷ []
      else []
]

unfoldable pub traefik_certificates :
    FilePath → Dict ApiCertInfo → List String → List TraefikCertificate
traefik_certificates dir certs [] = []
traefik_certificates dir certs (domain ∷ domains) =
    included dir certs domain ++ traefik_certificates dir certs domains

module _ (h : Host) (marshal : TraefikTls → Result String) where
  unfoldable pub generate_traefik_config :
      FilePath → FilePath → List String → Dict ApiCertInfo → Effect h.Disk
  generate_traefik_config config_path dir domains certs =
      elim (traefik_certificates dir certs domains) [
        | [] ↦ fail "no valid certificates to include in Traefik config"
        | c ∷ cs ↦ do
          yaml ← wrapped "failed to marshal YAML: " (
              reads (λ _. marshal (record {
                options = ("default", "VersionTLS12") ∷ ("mintls13", "VersionTLS13") ∷ [];
                certificates = c ∷ cs;
              })))
          wrapped "failed to write config file: " (h.os.write_file config_path yaml)
      ]
