-- ===== src/Tests/VaultWorld.antt =====
-- A Vault server that holds a value for each path.
use go_acme_store.Common.{
  ◌≡◌, not, ◌==◌, Option, none, some, List, [], Result, ok, err, arith, ==_self, ==_ne, inl,
}
use go_acme_store.Common.Dict.{Dict, keys, lookup, insert, erase, lookup-insert, lookup-erase}
use go_acme_store.Keystore.Types.{AcmeAccount, CertAndKey, no_cert, ManagedDomain}
use go_acme_store.Keystore.VaultHost.{VaultHost, IsSound}

pub data Value : Type 0 where
  account_value : Option AcmeAccount → Value
  cert_value : CertAndKey → Value
  domains_value : List ManagedDomain → Value
  null : Value

abbrev account_of : Value → Result (Option AcmeAccount)
account_of (account_value a) = ok a
account_of null = ok none
account_of _ = err "no account"

abbrev cert_of : Value → Result CertAndKey
cert_of (cert_value c) = ok c
cert_of null = ok no_cert
cert_of _ = err "no certificate"

abbrev domains_of : Value → Result (List ManagedDomain)
domains_of (domains_value l) = ok l
domains_of null = ok []
domains_of _ = err "no list of domains"

abbrev stored : Option Value → Result (Option (Option Value))
stored none = ok none
stored (some v) = ok (some (some v))

-- Every secret is listed under every path.
abbrev pub host : VaultHost
host = record {
  makes_client = λ address. not (address == ":");
  Server = Dict Value;
  Value = Value;
  read = λ p s. stored (lookup p s);
  write = λ p v s. (ok tt, insert p v s);
  list_keys = λ p s. ok (some (some (keys s)));
  delete = λ p s. (ok tt, erase p s);
  accounts = record { encode = λ a. ok (account_value a); decode = account_of };
  certs = record { encode = λ c. ok (cert_value c); decode = cert_of };
  domains = record { encode = λ l. ok (domains_value l); decode = domains_of };
  IsClean = λ _. Unit;
  IsNull = λ v. v ≡ null;
}

pub host-IsSound : IsSound host
host-IsSound = record {
  read-write = λ p v s e. ground (arith, lookup-insert p p v s, ==_self p);
  read-write_ne = λ q p v s _ _ ne. ground (arith, lookup-insert q p v s, ==_ne q p ne);
  read-delete = λ p s e. inl (ground (arith, lookup-erase p p s, ==_self p));
  read-delete_ne = λ q p s _ _ ne. ground (arith, lookup-erase q p s, ==_ne q p ne);
  certs = record { decode-encode = λ c v e. ground arith };
  domains = record { decode-encode = λ l v e. ground arith };
  decode-null = λ v e. ground arith;
}
