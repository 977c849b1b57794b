-- ===== src/Tests/Crypto.antt =====
-- Keys and certificates in the small world.
use go_acme_store.Common.{◌+◌, ◌*◌, ◌≤◌, String-discrete, ◌≡◌, refl, ◌↔◌, [], ◌∷◌, ok, some, false}
use go_acme_store.Crypto.Certificates.{
  Cert, block_certs, certs_loop, get_certs, get_leaf_cert, check_if_cert_needs_update, day,
}
use go_acme_store.Common.{arith}
use go_acme_store.Crypto.Certificates.Laws.{get_certs_lem, no_update_iff, chain_of}
use go_acme_store.Crypto.Keys.{encode_private_key, decode_private_key, find_key}
use go_acme_store.Crypto.Keys.Laws.{decode_private_key-encode}
use go_acme_store.Tests.World.{leaf, pki, pki-IsSound}

get_certs_lem_example :
    get_certs pki "-CERTIFICATE" ≡ chain_of pki pki-IsSound (pki.decode_pem "-CERTIFICATE")
get_certs_lem_example = get_certs_lem pki pki-IsSound "-CERTIFICATE"

no_update_iff_example :
    (check_if_cert_needs_update pki 0 "-CERTIFICATE" 21 ≡ false)
    ↔ ((c : Cert pki) × (get_leaf_cert pki "-CERTIFICATE" ≡ some c) × (0 + 21 * day ≤ c.not_after))
no_update_iff_example = no_update_iff pki 0 "-CERTIFICATE" 21 (omega arith)

decode_private_key-encode_example : decode_private_key pki "-EC PRIVATE KEY" ≡ ok tt
unfolding encode_private_key
decode_private_key-encode_example =
    decode_private_key-encode pki pki-IsSound tt "-EC PRIVATE KEY" refl

-- The search finds the block.
find_key_run : find_key pki 16 "-EC PRIVATE KEY" [] ≡ ok tt
unfolding find_key String-discrete
find_key_run = refl

-- The chain holds the certificate.
get_certs_run : get_certs pki "-CERTIFICATE" ≡ leaf ∷ []
unfolding get_certs certs_loop block_certs String-discrete
get_certs_run = refl
