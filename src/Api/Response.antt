-- ===== src/Api/Response.antt =====
-- What the handlers send: a status code and a JSON body.
use go_acme_store.Common.{ℕ, String, Bool, Option, some, List, ok, err}
use go_acme_store.Keystore.Types.{AcmeAccount, CertAndKey}
use go_acme_store.Common.Dict.{Dict}
use go_acme_store.Worker.{ensure_keystore}

-- type certInfo
pub record CertInfo : Type 0 where
  pub common_name : String
  pub sans : List String
  pub leaf_cert : String
  pub cert_chain : String
  pub cert_chain_url : String
  pub issuers : List String
  pub issued_on : String
  pub expires_on : String
  pub managed : Bool
  pub status : String
  pub error : String

-- type keystoreExport. The certificate and account records of the export have the fields of
-- `CertAndKey` and `AcmeAccount`, one for one, and are these.
pub record KeystoreExport : Type 0 where
  pub version : String
  pub exported_at : String
  pub acme_account : AcmeAccount
  pub certificates : Dict CertAndKey
  pub domains : List String

pub record Statistics : Type 0 where
  pub certificates_imported : ℕ
  pub certificates_failed : ℕ
  pub certificates_total : ℕ
  pub domains_imported : ℕ
  pub domains_failed : ℕ
  pub domains_total : ℕ

pub data Body : Type 0 where
  error : String → Body
  certs : List CertInfo → Body
  domains : List String → ℕ → Body
  added : String → String → List String → Body
  message : String → String → Body
  note : String → Body
  private_key : String → String → Body
  exported : KeystoreExport → Body
  imported : Statistics → Body
  -- status, connected, the keystore's status, its error
  health : String → Bool → String → Option String → Body

pub record Response : Type 0 where
  pub status : ℕ
  pub body : Body

abbrev pub reply : ℕ → Body → Response
reply status body = record { status = status; body = body }

abbrev pub refuse : ℕ → String → Response
refuse status text = reply status (error text)

-- A handler's effect on the global `ks`.
abbrev pub Handler : Type 0 → Type 0
Handler S = Option S → Response × Option S

-- `if err := ensureKeystore(); err != nil { return 503 }`, and the rest of the handler.
unfoldable pub with_keystore : {S : Type 0} → (S → Response × S) → Handler S
unfolding ensure_keystore
with_keystore rest ks = elim (ensure_keystore ks) [
  | err e ↦ (refuse 503 e, ks)
  | ok s ↦ let (r, s') = rest s in (r, some s')
]

-- A handler that only reads.
abbrev pub reading : {S : Type 0} → (S → Response) → S → Response × S
reading f s = (f s, s)
