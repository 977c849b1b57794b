-- ===== src/Keystore/Vault/Encoding.antt =====
-- `encodeForVault` of vault.go: a record goes through JSON into a map, which is stored under the key
-- `data`. JSON and mapstructure are parameters.
use go_acme_store.Common.{◌≡◌, Result, ok, err, wrap, arith, Result-cases, inl, inr}
use go_acme_store.Host.Codec.{Codec, IsRoundTrip}

module _ {A Bytes Value : Type 0} (marshal : A → Result Bytes) (unmarshal : Bytes → Result Value)
    (decode : Value → Result A) where
  -- The map under the key `data`.
  unfoldable pub encode_for_vault : A → Result Value
  encode_for_vault input = elim (marshal input) [
    | err e ↦ wrap "could not marshal json: " (err e)
    | ok bytes ↦ wrap "could not unmarshal json: " (unmarshal bytes)
  ]

  -- What a `VaultHost` has for a type of record.
  abbrev pub vault_codec : Codec A Value
  vault_codec = record { encode = encode_for_vault; decode = decode }

  -- Where mapstructure reads from the map what JSON wrote, the encoding is a round trip.
  pub vault_codec-IsRoundTrip :
      ((a : A) (bytes : Bytes) (v : Value)
        → marshal a ≡ ok bytes
        → unmarshal bytes ≡ ok v
        → decode v ≡ ok a)
      → IsRoundTrip vault_codec
  unfolding encode_for_vault
  vault_codec-IsRoundTrip reads_back = record {
    decode-encode = λ a v e. elim (Result-cases (marshal a)) [
      | inr (m, p) ↦ absurd (ground arith)
      | inl (bytes, p) ↦ elim (Result-cases (unmarshal bytes)) [
        | inr (m, q) ↦ absurd (ground arith)
        | inl (v', q) ↦ ground (arith, reads_back a bytes v' p q)
      ]
    ];
  }
