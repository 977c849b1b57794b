-- ===== src/Keystore/FileHost.antt =====
-- What the filesystem back end takes from its host, with the laws that Go documents.
use go_acme_store.Common.{String, List}
use go_acme_store.Host.Files.{Os, IsFaithful}
use go_acme_store.Host.Codec.{Codec, IsRoundTrip}
use go_acme_store.Keystore.Types.{AcmeAccount, CertAndKey, ManagedDomain}

pub record FileHost : Type 1 where
  pub os : Os
  pub open os use {Disk}
  pub accounts : Codec AcmeAccount String
  pub certs : Codec CertAndKey String
  pub domains : Codec (List ManagedDomain) String

pub record IsSound (h : FileHost) : Type 0 where
  pub files : IsFaithful h.os
  pub accounts : IsRoundTrip h.accounts
  pub certs : IsRoundTrip h.certs
  pub domains : IsRoundTrip h.domains
