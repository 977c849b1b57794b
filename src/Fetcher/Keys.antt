-- ===== src/Fetcher/Keys.antt =====
-- `verifyKeyPairMatch`. PEM, X.509 and the numbers in a key are the standard library's.
use go_acme_store.Common.{
  ℕ, String, Bool, true, false, ◌&&◌, Option, none, some, Result, ok, err, ◌==◌, if◌then◌else◌,
}
use go_acme_store.Crypto.{Block}
use Prim.Native.Nat.{compare, Ordering}

-- The keys that `x509` returns, by their Go type.
pub data PublicKey : Type 0 where
  rsa_public : ℕ → ℕ → PublicKey
  ecdsa_public : ℕ → ℕ → PublicKey
  other_public : PublicKey

pub data PrivateKey : Type 0 where
  rsa_private : ℕ → ℕ → PrivateKey
  ecdsa_private : ℕ → ℕ → PrivateKey
  other_private : PrivateKey

pub record Parsers : Type 1 where
  pub Bytes : Type 0
  pub decode_pem : String → Option (Block Bytes × String)
  -- The public key of `x509.ParseCertificate`.
  pub certificate_key : Bytes → Result PublicKey
  pub parse_pkcs1 : Bytes → Result PrivateKey
  pub parse_ec : Bytes → Result PrivateKey
  pub parse_pkcs8 : Bytes → Result PrivateKey

abbrev same_number : ℕ → ℕ → Bool
same_number m n = elim (compare m n) [ Ordering.eq ↦ true | _ ↦ false ]

-- The last `switch`.
unfoldable pub keys_match : PublicKey → PrivateKey → Bool
keys_match (rsa_public n e) (rsa_private m f) = same_number n m && same_number e f
keys_match (ecdsa_public x y) (ecdsa_private u v) = same_number x u && same_number y v
keys_match _ _ = false

module _ (p : Parsers) where
  -- The `switch` on the block's type. An unknown type is an error.
  unfoldable pub parse_key : Block p.Bytes → Result PrivateKey
  parse_key b =
      if b.block_type == "RSA PRIVATE KEY"
      then p.parse_pkcs1 b.bytes
      else if b.block_type == "EC PRIVATE KEY"
      then p.parse_ec b.bytes
      else if b.block_type == "PRIVATE KEY"
      then p.parse_pkcs8 b.bytes
      else err "unknown type of key"

  unfoldable pub key_of_certificate : Block p.Bytes → Result PublicKey
  key_of_certificate b =
      if b.block_type == "CERTIFICATE" then p.certificate_key b.bytes else err "no certificate"

  unfoldable pub verify_key_pair_match : String → String → Bool
  unfolding parse_key key_of_certificate keys_match
  verify_key_pair_match cert_pem key_pem = elim (p.decode_pem cert_pem) [
    | none ↦ false
    | some (block, _) ↦ elim (key_of_certificate block) [
      | err e ↦ false
      | ok public ↦ elim (p.decode_pem key_pem) [
        | none ↦ false
        | some (key_block, _) ↦ elim (parse_key key_block) [
          | err e ↦ false
          | ok private ↦ keys_match public private
        ]
      ]
    ]
  ]
