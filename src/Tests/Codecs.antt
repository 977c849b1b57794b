-- ===== src/Tests/Codecs.antt =====
-- A reversible text form of the records that a keystore stores: each character of a text is
-- written after a dash, and a dot ends the text.

use Prim.Native.Nat.{compare, Ordering}
use Prim.Native.Char.{Char, code}
use go_acme_store.Common.{
  String, String-discrete, ◌≡◌, refl, Bool, true, false, List, [], ◌∷◌, map, Result, ok, err, arith,
  if◌then◌else◌, ◌==◌,
}
use go_acme_store.Host.Codec.{Codec, IsRoundTrip}
use go_acme_store.Keystore.Types.{AcmeAccount, CertAndKey, ManagedDomain}

write_text : String → String → String
write_text String.[] rest = String.◌∷◌ "." rest
write_text (String.◌∷◌ c s) rest = String.◌∷◌ "-" (String.◌∷◌ c (write_text s rest))

goes_on : Char → Bool
goes_on c = elim (compare (code c) b'-') [ Ordering.eq ↦ true | _ ↦ false ]

-- The rest of a text before the texts that follow it.
with_head : Char → List String → List String
with_head c [] = (String.◌∷◌ c "") ∷ []
with_head c (x ∷ xs) = (String.◌∷◌ c x) ∷ xs

unfoldable pub read_texts : String → List String
unfolding goes_on with_head
read_texts String.[] = []
read_texts (String.◌∷◌ m String.[]) = "" ∷ []
read_texts (String.◌∷◌ m (String.◌∷◌ c s)) =
    let more = read_texts s in
    let rest = read_texts (String.◌∷◌ c s) in if goes_on m then with_head c more else "" ∷ rest

read_texts-write_text : (x rest : String) → read_texts (write_text x rest) ≡ x ∷ read_texts rest
unfolding read_texts write_text
read_texts-write_text String.[] String.[] = refl
read_texts-write_text String.[] (String.◌∷◌ c rest) = refl
read_texts-write_text (String.◌∷◌ c s) rest = rw (read_texts-write_text s rest)

unfoldable pub write_texts : List String → String
unfolding write_text
write_texts [] = ""
write_texts (x ∷ xs) = write_text x (write_texts xs)

pub read-write_texts : (xs : List String) → read_texts (write_texts xs) ≡ xs
unfolding write_texts
read-write_texts [] = unfold read_texts in refl
read-write_texts (x ∷ xs) = rw (read_texts-write_text x (write_texts xs), read-write_texts xs)

abbrev flag : Bool → String
flag true = "yes"
flag false = "no"

abbrev is_yes : String → Bool
is_yes text = text == "yes"

flag-is_yes : (b : Bool) → is_yes (flag b) ≡ b
unfolding String-discrete
flag-is_yes true = refl
flag-is_yes false = refl

abbrev account_of : List String → Result AcmeAccount
account_of (email ∷ key ∷ []) = ok (record { email = email; key = key })
account_of _ = err "unexpected end of JSON input"

abbrev pub accounts : Codec AcmeAccount String
accounts = record {
  encode = λ a. ok (write_texts (a.email ∷ a.key ∷ []));
  decode = λ t. account_of (read_texts t);
}

pub accounts-IsRoundTrip : IsRoundTrip accounts
accounts-IsRoundTrip = record {
  decode-encode = λ a t e. ground (arith, read-write_texts (a.email ∷ a.key ∷ []));
}

abbrev fields : CertAndKey → List String
fields c =
    c.cert_chain_pem
    ∷ c.leaf_cert_pem
    ∷ c.cert_chain_url
    ∷ c.private_key_pem
    ∷ write_texts c.issuers
    ∷ c.issued_on
    ∷ c.expiration
    ∷ c.common_name
    ∷ write_texts c.sans
    ∷ flag c.managed
    ∷ c.status
    ∷ c.error
    ∷ []

abbrev cert_of : List String → Result CertAndKey
cert_of
      (chain ∷ leaf ∷ url ∷ key ∷ issuers ∷ on ∷ until ∷ name ∷ sans ∷ managed ∷ status ∷ error
        ∷ []) =
    ok (record {
      cert_chain_pem = chain;
      leaf_cert_pem = leaf;
      cert_chain_url = url;
      private_key_pem = key;
      issuers = read_texts issuers;
      issued_on = on;
      expiration = until;
      common_name = name;
      sans = read_texts sans;
      managed = is_yes managed;
      status = status;
      error = error;
    })
cert_of _ = err "unexpected end of JSON input"

cert_of-fields : (c : CertAndKey) → cert_of (fields c) ≡ ok c
cert_of-fields c = rw (read-write_texts c.issuers, read-write_texts c.sans, flag-is_yes c.managed)

abbrev pub certs : Codec CertAndKey String
certs = record { encode = λ c. ok (write_texts (fields c)); decode = λ t. cert_of (read_texts t) }

pub certs-IsRoundTrip : IsRoundTrip certs
certs-IsRoundTrip = record {
  decode-encode = λ c t e. ground (arith, read-write_texts (fields c), cert_of-fields c);
}

abbrev domain_text : ManagedDomain → String
domain_text d = write_texts (d.domain ∷ d.sans)

abbrev domain_from : List String → ManagedDomain
domain_from [] = record { domain = ""; sans = [] }
domain_from (domain ∷ sans) = record { domain = domain; sans = sans }

abbrev pub domains_from : List String → List ManagedDomain
domains_from [] = []
domains_from (t ∷ ts) = domain_from (read_texts t) ∷ domains_from ts

domains_from-texts : (l : List ManagedDomain) → domains_from (map domain_text l) ≡ l
domains_from-texts [] = refl
domains_from-texts (d ∷ l) = rw (read-write_texts (d.domain ∷ d.sans), domains_from-texts l)

abbrev pub domains : Codec (List ManagedDomain) String
domains = record {
  encode = λ l. ok (write_texts (map domain_text l));
  decode = λ t. ok (domains_from (read_texts t));
}

pub domains-IsRoundTrip : IsRoundTrip domains
domains-IsRoundTrip = record {
  decode-encode =
      λ l t e. ground (arith, read-write_texts (map domain_text l), domains_from-texts l);
}
