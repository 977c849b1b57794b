-- ===== src/Crypto/Keys.antt =====
-- pkg/crypto/keys.go
pub mod Laws
use Prim.Native.String.{len}
use go_acme_store.Common.{
  ℕ, zero, suc, String, ◌<>◌, Bool, Option, none, some, List, [], ◌∷◌, ◌++◌, Result, ok, err, ◌==◌,
  if◌then◌else◌,
}
use go_acme_store.Crypto.{Pki, Block}

-- `%v` of a `[]string`: the texts between brackets, a space between two.
abbrev spaced : List String → String
spaced [] = ""
spaced (x ∷ []) = x
spaced (x ∷ y ∷ xs) = x <> (" " <> spaced (y ∷ xs))

unfoldable pub not_found : List String → String
not_found skipped =
    "failed to find EC PRIVATE KEY in PEM data after skipping types [" <> (spaced skipped <> "]")

module _ (p : Pki) where
  unfoldable pub encode_private_key : p.PrivateKey → Result String
  encode_private_key key = elim (p.marshal_ec_private_key key) [
    | err e ↦ err e
    | ok der ↦ ok (p.encode_pem (record { block_type = "EC PRIVATE KEY"; bytes = der }))
  ]

  -- The loop of `DecodePrivateKey`, on fuel: it looks for the first block of the key's type.
  unfoldable pub find_key : ℕ → String → List String → Result p.Bytes
  find_key zero rest skipped = err (not_found skipped)
  find_key (suc fuel) rest skipped = elim (p.decode_pem rest) [
    | none ↦ err (not_found skipped)
    | some (b, rest') ↦
        let more = find_key fuel rest' (skipped ++ (b.block_type ∷ [])) in
        if b.block_type == "EC PRIVATE KEY" then ok b.bytes else more
  ]

  -- Each round takes the input's length down, so this fuel is enough.
  unfoldable pub decode_private_key : String → Result p.PrivateKey
  unfolding find_key
  decode_private_key text = elim (find_key (suc (len text)) text []) [
    | err e ↦ err e
    | ok bytes ↦ p.parse_ec_private_key bytes
  ]

  -- `none` is a panic: the error of `GenerateECKey` is dropped, and `EncodePrivateKey` then gets a
  -- nil key.
  unfoldable pub generate_ec_key_pem : Option (Result String)
  unfolding encode_private_key
  generate_ec_key_pem = elim p.generate_key [
    | err _ ↦ none
    | ok key ↦ some (encode_private_key key)
  ]
