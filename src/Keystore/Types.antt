-- ===== src/Keystore/Types.antt =====
-- pkg/keystore/keystore.go and vault.go: the records that a keystore holds.
use go_acme_store.Common.{String, List, [], Bool, false}

pub record AcmeAccount : Type 0 where
  pub email : String
  pub key : String

pub record CertAndKey : Type 0 where
  pub cert_chain_pem : String
  pub leaf_cert_pem : String
  pub cert_chain_url : String
  pub private_key_pem : String
  pub issuers : List String
  pub issued_on : String
  pub expiration : String
  pub common_name : String
  pub sans : List String
  pub managed : Bool
  pub status : String
  pub error : String

-- The zero value `CertAndKey{}`.
abbrev pub no_cert : CertAndKey
no_cert = record {
  cert_chain_pem = "";
  leaf_cert_pem = "";
  cert_chain_url = "";
  private_key_pem = "";
  issuers = [];
  issued_on = "";
  expiration = "";
  common_name = "";
  sans = [];
  managed = false;
  status = "";
  error = "";
}

pub record ManagedDomain : Type 0 where
  pub domain : String
  pub sans : List String

abbrev pub domain_of : ManagedDomain → String
domain_of d = d.domain
