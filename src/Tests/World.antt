-- ===== src/Tests/World.antt =====
-- A small world to run the program in: a PEM codec, a configuration, a certificate provider and a
-- Vault server.
use Prim.Native.String
use text.Mathlib.TextPositions.{len_utf8-pos}
use go_acme_store.Common.{
  ℕ, ◌*◌, ◌<◌, String, ◌≡◌, refl, true, false, Option, none, some, List, [], ◌∷◌, Result, ok, arith,
}
use go_acme_store.Common.Dict.{Dict, lookup}
use go_acme_store.Host.Viper.{Viper, pos}
use go_acme_store.Crypto.{Pki, Block, Certificate, IsSound}
use go_acme_store.Crypto.Certificates.{day}
use go_acme_store.Keystore.Types.{AcmeAccount, CertAndKey, no_cert}
use go_acme_store.Acme.Renewal.{Env, Provider, Obtained}

-- A certificate that is valid for 90 days.
abbrev pub leaf : Certificate (Unit {0})
leaf = record {
  raw = tt;
  is_ca = false;
  subject_common_name = "a.example";
  dns_names = "a.example" ∷ [];
  not_before = 0;
  not_after = 90 * day;
}

-- The block that a nonempty text holds.
abbrev decode_pem : String → Option (Block (Unit {0}) × String)
decode_pem String.[] = none
decode_pem (String.◌∷◌ c text) = some (record { block_type = text; bytes = tt }, "")

-- A text is one block: a sign and the block's type.
abbrev pub pki : Pki
pki = record {
  Bytes = Unit;
  PrivateKey = Unit;
  decode_pem = decode_pem;
  encode_pem = λ b. String.◌∷◌ "-" b.block_type;
  parse_certificate = λ _. ok leaf;
  parse_ec_private_key = λ _. ok tt;
  marshal_ec_private_key = λ _. ok tt;
  generate_key = ok tt;
  time_string = λ _. "a time";
}

decode_pem-shorter :
    (s : String) (b : Block (Unit {0})) (rest : String)
    → decode_pem s ≡ some (b, rest)
    → String.len rest < String.len s
decode_pem-shorter String.[] b rest e = absurd (ground arith)
decode_pem-shorter (String.◌∷◌ c text) b rest e =
    let nothing_left : rest ≡ "" = ground arith in
    rw (nothing_left, String.len.cons c text, (len_utf8-pos c).1) (omega arith)

pub pki-IsSound : IsSound pki
pki-IsSound = record {
  decode_pem-shorter = decode_pem-shorter;
  decode_pem-encode_pem = λ b. refl;
  parse-marshal = λ k b e. refl;
}

abbrev settings : Dict String
settings =
    ("acme.dns_provider", "acmedns") ∷ ("acme.acmedns_server_url", "https://dns.example") ∷ []

abbrev get_string : Dict String → String → String
get_string d k = elim (lookup k d) [ none ↦ "" | some v ↦ v ]

abbrev viper : Dict String → Viper
viper d = record {
  get_string = get_string d;
  get_bool = λ _. false;
  is_set = λ k. elim (lookup k d) [ none ↦ false | some v ↦ true ];
  get_duration = λ _. pos 0;
}

abbrev account_provider : Result (List Obtained) → Provider pki
account_provider answer = record {
  Account = Unit;
  get_account = λ contact key. (tt, ok tt);
  new_account = λ account. ok account;
  names_missing_account = λ e. false;
  obtain = λ solver account key names. answer;
}

abbrev pub issued : Result (List Obtained)
issued = ok (record { chain_pem = "-CERTIFICATE"; url = "https://acme.example/1" } ∷ [])

-- A day on which the provider gives this answer.
abbrev pub env : ℕ → Result (List Obtained) → Env
env today answer = record {
  pki = pki;
  viper = viper settings;
  now = today * day;
  provider = account_provider answer;
  new_key = ok tt;
}

abbrev pub account : AcmeAccount
account = record { email = "ops@example"; key = "-EC PRIVATE KEY" }

abbrev pub cert_named : String → CertAndKey
cert_named name = record no_cert {
  common_name = name;
  leaf_cert_pem = "-CERTIFICATE";
  cert_chain_pem = "-CERTIFICATE";
  private_key_pem = "-EC PRIVATE KEY";
  status = "issued";
  managed = true;
}

-- The certificate that a renewal makes of what is issued.
abbrev pub obtained : CertAndKey
obtained = record (cert_named "a.example") {
  cert_chain_url = "https://acme.example/1";
  issued_on = "a time";
  expiration = "a time";
  sans = "a.example" ∷ [];
}
