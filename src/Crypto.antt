-- ===== src/Crypto.antt =====
-- pkg/crypto. PEM and X.509 are the standard library's: they are parameters, with what Go documents.
pub mod Certificates
pub mod Keys
use Prim.Native.String.{len}
use go_acme_store.Common.{ℕ, ◌<◌, String, ◌≡◌, Bool, Option, none, some, List, Result, ok}

pub record Block (Bytes : Type 0) : Type 0 where
  pub block_type : String
  pub bytes : Bytes

-- The fields of `x509.Certificate` that the program reads. Times are nanoseconds.
pub record Certificate (Bytes : Type 0) : Type 0 where
  pub raw : Bytes
  pub is_ca : Bool
  pub subject_common_name : String
  pub dns_names : List String
  pub not_before : ℕ
  pub not_after : ℕ

pub record Pki : Type 1 where
  pub Bytes : Type 0
  pub PrivateKey : Type 0
  -- `pem.Decode`: the next block and the rest of the input
  pub decode_pem : String → Option (Block Bytes × String)
  pub encode_pem : Block Bytes → String
  pub parse_certificate : Bytes → Result (Certificate Bytes)
  pub parse_ec_private_key : Bytes → Result PrivateKey
  pub marshal_ec_private_key : PrivateKey → Result Bytes
  -- `ecdsa.GenerateKey(elliptic.P256(), rand.Reader)`, for some randomness
  pub generate_key : Result PrivateKey
  -- `time.Time.String`
  pub time_string : ℕ → String

pub record IsSound (p : Pki) : Type 0 where
  -- The rest does not hold the block that was found.
  pub decode_pem-shorter :
      (s : String) (b : Block p.Bytes) (rest : String)
      → p.decode_pem s ≡ some (b, rest)
      → len rest < len s
  pub decode_pem-encode_pem : (b : Block p.Bytes) → p.decode_pem (p.encode_pem b) ≡ some (b, "")
  pub parse-marshal :
      (k : p.PrivateKey) (b : p.Bytes)
      → p.marshal_ec_private_key k ≡ ok b
      → p.parse_ec_private_key b ≡ ok k
