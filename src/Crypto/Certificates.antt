-- ===== src/Crypto/Certificates.antt =====
-- pkg/crypto/certificates.go. Floating-point numbers are a parameter of the one function that uses
-- them.
pub mod Laws
use Prim.Native.String.{len}
use go_acme_store.Common.{
  ℕ, zero, suc, ◌+◌, ◌-◌, ◌%◌, ◌*◌, ◌≤◌, ◌<◌, String, ◌≡◌, refl, ◌≢◌, sym, ap, ◌∙◌, Bool, true,
  false, not, Option, none, some, List, [], ◌∷◌, ◌++◌, Result, ok, err, arith, ◌==◌, leb, ltb,
  if◌then◌else◌, ◌↔◌, Option-cases, Result-cases, inl, inr, Bool-cases,
}
use go_acme_store.Crypto.{Pki, IsSound, Block, Certificate}

-- 24 * time.Hour
abbrev pub day : ℕ
day = 86_400_000_000_000

-- An `int` and a `time.Duration` have 64 bits. They are held as their bit patterns: from 2 ^ 63 on,
-- the number is negative.
abbrev pub two_63 : ℕ
two_63 = 9223372036854775808

abbrev pub two_64 : ℕ
two_64 = 18446744073709551616

-- `time.Duration(days) * 24 * time.Hour`, with its overflow
unfoldable pub duration_of_days : ℕ → ℕ
duration_of_days days = (days * day) % two_64

-- `!now.Add(duration).After(t)`
unfoldable pub is_within : ℕ → ℕ → ℕ → Bool
is_within now duration t =
    if ltb duration two_63 then leb (now + duration) t else leb now (t + (two_64 - duration))

module _ (p : Pki) where
  abbrev pub Cert : Type 0
  Cert = Certificate p.Bytes

  -- What one block adds to the certificates: a block of another type, or one that does not parse,
  -- adds nothing.
  unfoldable pub block_certs : Block p.Bytes → List Cert
  block_certs b =
      if b.block_type == "CERTIFICATE"
      then (elim (p.parse_certificate b.bytes) [ ok cert ↦ cert ∷ [] | err e ↦ [] ])
      else []

  -- The loop of `GetCerts`, on fuel.
  unfoldable pub certs_loop : ℕ → String → List Cert → List Cert
  certs_loop zero rest certs = certs
  certs_loop (suc fuel) rest certs = elim (p.decode_pem rest) [
    | none ↦ certs
    | some (b, rest') ↦ certs_loop fuel rest' (certs ++ block_certs b)
  ]

  -- Each round takes the input's length down, so this fuel is enough.
  unfoldable pub get_certs : String → List Cert
  get_certs chain = certs_loop (suc (len chain)) chain []

  unfoldable pub first_leaf : List Cert → Option Cert
  first_leaf [] = none
  first_leaf (cert ∷ certs) = let rest = first_leaf certs in if cert.is_ca then rest else some cert

  unfoldable pub get_leaf_cert : String → Option Cert
  get_leaf_cert chain = first_leaf (get_certs chain)

  unfoldable pub check_if_cert_needs_update : ℕ → String → ℕ → Bool
  unfolding duration_of_days is_within
  check_if_cert_needs_update now chain deadline_days = elim (get_leaf_cert chain) [
    | none ↦ true
    | some leaf ↦
        if is_within now (duration_of_days deadline_days) leaf.not_after then false else true
  ]

  -- `hours_until now t` is `t.Sub(now).Hours()`.
  unfoldable pub days_remaining_until_cert_expires :
      {Float : Type 0} → (ℕ → ℕ → Float) → Float → (Float → Float) → ℕ → String → Float
  days_remaining_until_cert_expires hours_until no_hours by_24 now chain =
      by_24 (elim (get_leaf_cert chain) [
        | none ↦ no_hours
        | some leaf ↦ hours_until now leaf.not_after
      ])

  unfoldable pub ca_names : List Cert → List String
  ca_names [] = []
  ca_names (cert ∷ certs) =
      let rest = ca_names certs in if cert.is_ca then cert.subject_common_name ∷ rest else rest

  unfoldable pub get_issuers_cn : String → List String
  get_issuers_cn chain = ca_names (get_certs chain)

  unfoldable pub cert_to_pem : Cert → String
  cert_to_pem cert = p.encode_pem (record { block_type = "CERTIFICATE"; bytes = cert.raw })
