-- ===== src/Fetcher/Client.antt =====
-- The API client: what each request makes of the server's answer. The HTTP client and the JSON
-- decoders are parameters.
use Prim.Native.Nat.{compare, Ordering}
use go_acme_store.Common.{
  ℕ, String, ◌<>◌, Bool, true, false, ◌||◌, List, [], ◌∷◌, Result, ok, err, wrap, ◌==◌,
  if◌then◌else◌,
}
use go_acme_store.Common.Dict.{Dict, insert}

-- type apiCertInfo, by the fields that the program reads
pub record ApiCertInfo : Type 0 where
  pub common_name : String
  pub leaf_cert_pem : String
  pub cert_chain_pem : String
  pub managed : Bool
  pub status : String

pub record Http : Type 1 where
  pub Body : Type 0
  -- A status code and a body, for a URL.
  pub get : String → Result (ℕ × Body)
  pub text_of : Body → String
  -- What is left of a body for `io.ReadAll` after a decoder has failed on it.
  pub rest_of : Body → String
  pub show_status : ℕ → String
  pub decode_domains : Body → Result (List String)
  pub decode_certs : Body → Result (List ApiCertInfo)
  pub decode_key : Body → Result String
  pub decode_error : Body → Result String

abbrev is_status : ℕ → ℕ → Bool
is_status m n = elim (compare m n) [ Ordering.eq ↦ true | _ ↦ false ]

-- The map from common names; the last certificate of a name stays.
unfoldable pub certs_by_name : List ApiCertInfo → Dict ApiCertInfo → Dict ApiCertInfo
certs_by_name [] m = m
certs_by_name (cert ∷ certs) m =
    certs_by_name certs (if cert.common_name == "" then m else insert cert.common_name cert m)

module _ (h : Http) (api_url : String) where
  unfoldable pub check_api_health : Result (Unit {0})
  check_api_health = elim (h.get (api_url <> "/healthz")) [
    | err e ↦ err ("connection failed: " <> e)
    | ok (status, _) ↦
        if is_status status 200 || is_status status 503
        then ok tt
        else err ("unexpected status code: " <> h.show_status status)
  ]

  abbrev api_error : ℕ → String → String
  api_error status body = "API error (status " <> (h.show_status status <> ("): " <> body))

  unfoldable pub get_managed_domains : Result (List String)
  get_managed_domains = elim (h.get (api_url <> "/domains")) [
    | err e ↦ err ("request failed: " <> e)
    | ok (status, body) ↦
        if is_status status 200
        then wrap "failed to decode response: " (h.decode_domains body)
        else err (api_error status (h.text_of body))
  ]

  unfoldable pub get_all_certs : Result (Dict ApiCertInfo)
  unfolding certs_by_name
  get_all_certs = elim (h.get (api_url <> "/certs")) [
    | err e ↦ err ("request failed: " <> e)
    | ok (status, body) ↦
        if is_status status 200
        then elim (h.decode_certs body) [
          | err e ↦ err ("failed to decode response: " <> e)
          | ok certs ↦ ok (certs_by_name certs [])
        ]
        else err (api_error status (h.text_of body))
  ]

  unfoldable pub get_private_key : String → Result String
  get_private_key domain = elim (h.get (api_url <> ("/certs/" <> (domain <> "/private-key")))) [
    | err e ↦ err ("request failed: " <> e)
    | ok (status, body) ↦
        if is_status status 200
        then wrap "failed to decode response: " (h.decode_key body)
        else elim (h.decode_error body) [
          | err e ↦ err (api_error status (h.rest_of body))
          | ok message ↦ err ("API error: " <> message)
        ]
  ]
