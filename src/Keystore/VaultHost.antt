-- ===== src/Keystore/VaultHost.antt =====
-- The Vault server and its client library, with what the documentation of the KV v2 engine
-- promises. A `Value` is the map under the key `data` of a secret.
use go_acme_store.Common.{String, Bool, ◌≡◌, ◌≢◌, ◌⊎◌, Option, none, some, List, Result, ok, Effect}
use go_acme_store.Host.Codec.{Codec, IsRoundTrip}
use go_acme_store.Keystore.Types.{AcmeAccount, CertAndKey, no_cert, ManagedDomain}

pub record VaultHost : Type 1 where
  -- Does `vault.NewClient` accept this address? It returns a nil client where it does not.
  pub makes_client : String → Bool
  pub Server : Type 0
  pub Value : Type 0
  -- No secret, a secret without the key `data`, or its value.
  pub read : String → Server → Result (Option (Option Value))
  pub write : String → Value → Effect Server
  -- No secret, a secret without the key `keys`, or its value.
  pub list_keys : String → Server → Result (Option (Option (List String)))
  pub delete : String → Effect Server
  -- `encodeForVault`, and `mapstructure.Decode` into a variable of the type.
  pub accounts : Codec (Option AcmeAccount) Value
  pub certs : Codec CertAndKey Value
  pub domains : Codec (List ManagedDomain) Value
  -- A path that the server does not rewrite.
  pub IsClean : String → Type 0
  -- The value that a deleted version reads as.
  pub IsNull : Value → Type 0

module _ (h : VaultHost) where
  abbrev pub ReadsNothing : Result (Option (Option h.Value)) → Type 0
  ReadsNothing r =
      (r ≡ ok none) ⊎ (r ≡ ok (some none)) ⊎ ((v : h.Value) × (r ≡ ok (some (some v))) × h.IsNull v)

  pub record IsSound : Type 0 where
    pub read-write :
        (p : String) (v : h.Value) (s : h.Server)
        → (h.write p v s).0 ≡ ok tt
        → h.read p (h.write p v s).1 ≡ ok (some (some v))
    pub read-write_ne :
        (q p : String) (v : h.Value) (s : h.Server)
        → h.IsClean q
        → h.IsClean p
        → q ≢ p
        → h.read q (h.write p v s).1 ≡ h.read q s
    pub read-delete :
        (p : String) (s : h.Server)
        → (h.delete p s).0 ≡ ok tt
        → ReadsNothing (h.read p (h.delete p s).1)
    pub read-delete_ne :
        (q p : String) (s : h.Server)
        → h.IsClean q
        → h.IsClean p
        → q ≢ p
        → h.read q (h.delete p s).1 ≡ h.read q s
    pub certs : IsRoundTrip h.certs
    pub domains : IsRoundTrip h.domains
    pub decode-null : (v : h.Value) → h.IsNull v → h.certs.decode v ≡ ok no_cert
