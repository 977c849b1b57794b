-- ===== src/Delivery.antt =====
-- The two programs together: the fetcher's requests, answered by the handlers of the server. Where a
-- URL leads is a parameter here, and Routing/Fetched fills it in from the routes. The JSON between
-- them is a parameter, with what the tags of the two programs have in common.
pub mod Names
pub mod Files
use go_acme_store.Common.{
  ℕ, String, ◌<>◌, ◌≡◌, Option, none, some, List, [], ◌∷◌, map, Result, ok, err,
}
use go_acme_store.Keystore.{Keystore}
use go_acme_store.Api.Response.{
  CertInfo, Body, error, certs, domains, private_key, health, Response, reply,
}
use go_acme_store.Api.Certs.{handler_certs, handler_get_private_key}
use go_acme_store.Api.Domains.{handler_get_domains}
use go_acme_store.Api.Health.{handler_health_check}
use go_acme_store.Fetcher.Client.{ApiCertInfo, Http}

-- The routes that the fetcher uses.
pub data Get : Type 0 where
  healthz : Get
  domains_list : Get
  certs_list : Get
  key_of : String → Get

-- What the fetcher reads of an entry of the list of certificates.
unfoldable pub api_info : CertInfo → ApiCertInfo
api_info i = record {
  common_name = i.common_name;
  leaf_cert_pem = i.leaf_cert;
  cert_chain_pem = i.cert_chain;
  managed = i.managed;
  status = i.status;
}

-- The JSON between the programs: what `c.JSON` writes, and the decoders of the fetcher.
pub record Wire : Type 1 where
  pub Text : Type 0
  pub encode : Body → Text
  pub text_of : Text → String
  -- What is left for `io.ReadAll` after a decoder has failed.
  pub rest_of : Text → String
  pub show_status : ℕ → String
  pub decode_domains : Text → Result (List String)
  pub decode_certs : Text → Result (List ApiCertInfo)
  pub decode_key : Text → Result String
  pub decode_error : Text → Result String

-- `encoding/json`: a field is written under its tag, and read from the same tag.
pub record IsReadBack (w : Wire) : Type 0 where
  pub domains_back : (l : List String) (n : ℕ) → w.decode_domains (w.encode (domains l n)) ≡ ok l
  pub certs_back : (l : List CertInfo) → w.decode_certs (w.encode (certs l)) ≡ ok (map api_info l)
  pub key_back : (d k : String) → w.decode_key (w.encode (private_key d k)) ≡ ok k

-- How the router of the server reads the URLs of the fetcher, the one of a key for the domain `a`.
pub record IsRouter (api_url a : String) (route : String → Option Get) : Type 0 where
  pub to_domains : route (api_url <> "/domains") ≡ some domains_list
  pub to_certs : route (api_url <> "/certs") ≡ some certs_list
  pub to_key : route (api_url <> ("/certs/" <> (a <> "/private-key"))) ≡ some (key_of a)

module _ (K : Keystore) (ks : Option K.State) where
  unfoldable pub respond : Option Get → Response
  respond none = reply 404 (error "Cannot GET")
  respond (some healthz) = handler_health_check K ks
  respond (some domains_list) = (handler_get_domains K ks).0
  respond (some certs_list) = (handler_certs K ks).0
  respond (some (key_of d)) = (handler_get_private_key K d ks).0

  -- The server as the fetcher sees it.
  abbrev pub server : (String → Option Get) → Wire → Http
  server route w = record {
    Body = w.Text;
    get = λ url. let r = respond (route url) in ok (r.status, w.encode r.body);
    text_of = w.text_of;
    rest_of = w.rest_of;
    show_status = w.show_status;
    decode_domains = w.decode_domains;
    decode_certs = w.decode_certs;
    decode_key = w.decode_key;
    decode_error = w.decode_error;
  }
