-- ===== src/Keystore.antt =====
-- pkg/keystore/keystore.go: the `Keystore` interface. A state of a back end is passed explicitly.
-- Reads are functions of the state, and a method that writes returns its error and the new state.
-- The children model the three back ends.
pub mod Types
pub mod Issued
pub mod Named
pub mod Laws
pub mod FileHost
pub mod Adoption
pub mod VaultHost
pub mod Vault
pub mod Memory
pub mod Filesystem
pub mod Select
use go_acme_store.Common.{String, List, Bool, Option, Result, Effect}
use Types.{AcmeAccount, CertAndKey, ManagedDomain}

pub record Keystore : Type 1 where
  pub State : Type 0
  pub get_acme_account : State → Result AcmeAccount
  pub get_all_domains : State → Result (List String)
  pub store_cert_and_key : String → CertAndKey → Effect State
  pub get_cert_and_key : String → State → Result CertAndKey
  pub get_leaf_cert : String → State → Result String
  pub delete_cert_and_key : String → Effect State
  pub get_managed_domains : State → Result (List String)
  pub add_managed_domain : String → Effect State
  pub add_managed_domain_with_sans : String → List String → Effect State
  pub remove_managed_domain : String → Effect State
  pub is_managed_domain : String → State → Result Bool
  -- The type assertion `ks.(*keystore.VaultKeystore)`, with the one method it is made for.
  pub vault_lookup : Option (String → State → Result ManagedDomain)
