-- ===== src/Crypto/Keys/Laws.antt =====
-- pkg/crypto/keys.go: the search of `DecodePrivateKey`, and keys that were encoded.
use Prim.Native.String.{len}
use go_acme_store.Common.{
  ℕ, zero, suc, ◌<◌, String, String-discrete, ◌≡◌, Option-cases, Result-cases, none, some, List, [],
  ◌∷◌, ◌++◌, inl, inr, ok, err, arith, ◌==◌, if◌then◌else◌, Result, Option,
}
use go_acme_store.Crypto.{Pki, IsSound, Block}
use go_acme_store.Crypto.Keys.{encode_private_key, find_key, decode_private_key, not_found}

module _ (p : Pki) (sound : IsSound p) where
  find_key-fuel :
      (f g : ℕ) (s : String) (skipped : List String)
      → len s < f
      → len s < g
      → find_key p f s skipped ≡ find_key p g s skipped
  unfolding find_key
  find_key-fuel zero g s skipped hf hg = absurd (omega arith)
  find_key-fuel (suc f) zero s skipped hf hg = absurd (omega arith)
  find_key-fuel (suc f) (suc g) s skipped hf hg = elim (Option-cases (p.decode_pem s)) [
    | inl e ↦ ground arith
    | inr ((b, rest), e) ↦
        let shorter : len rest < len s = sound.decode_pem-shorter s b rest e in
        ground (
          arith,
          find_key-fuel f g rest (skipped ++ (b.block_type ∷ [])) (omega arith) (omega arith),
        )
  ]

  -- What the search returns after some skipped types: from the first block, or from the rest.
  abbrev pub search_of : List String → Option (Block p.Bytes × String) → Result p.Bytes
  search_of skipped none = err (not_found skipped)
  search_of skipped (some (b, rest)) =
      if b.block_type == "EC PRIVATE KEY"
      then ok b.bytes
      else find_key p (suc (len rest)) rest (skipped ++ (b.block_type ∷ []))

  -- Where pem.Decode returns a shorter rest, the search of DecodePrivateKey takes the first block
  -- of the type of a key and goes on past every other one: its fuel never runs out.
  pub find_key_lem :
      (s : String) (skipped : List String)
      → find_key p (suc (len s)) s skipped ≡ search_of skipped (p.decode_pem s)
  unfolding find_key
  find_key_lem s skipped = elim (Option-cases (p.decode_pem s)) [
    | inl e ↦ ground arith
    | inr ((b, rest), e) ↦
        let shorter : len rest < len s = sound.decode_pem-shorter s b rest e in
        ground (
          arith,
          find_key-fuel (len s) (suc (len rest)) rest (skipped ++ (b.block_type ∷ [])) shorter
              (omega arith),
        )
  ]

  -- Over parsers that keep their promises, a key that was encoded is decoded to itself.
  pub decode_private_key-encode :
      (key : p.PrivateKey) (text : String)
      → encode_private_key p key ≡ ok text
      → decode_private_key p text ≡ ok key
  unfolding encode_private_key decode_private_key String-discrete
  decode_private_key-encode key text h = elim (Result-cases (p.marshal_ec_private_key key)) [
    | inr (e, q) ↦ absurd (ground arith)
    | inl (der, q) ↦
        let block : Block p.Bytes = record { block_type = "EC PRIVATE KEY"; bytes = der } in
        let same : p.encode_pem block ≡ text = ground arith in
        rw (← same) (
          ground (
            arith,
            find_key_lem (p.encode_pem block) [],
            sound.decode_pem-encode_pem block,
            sound.parse-marshal key der q,
          ))
  ]
