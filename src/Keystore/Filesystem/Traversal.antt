-- ===== src/Keystore/Filesystem/Traversal.antt =====
-- `getDomainFilePath` of filesystem.go on a domain that begins with `../`.
use go_acme_store.Common.{String, ◌<>◌, ◌≡◌, ok, wrap, arith}
use text.Mathlib.TextLemmas.{append_assoc}
use go_acme_store.Host.Paths.{FilePath, join, join_dots, join_name, IsName}
use go_acme_store.Keystore.Types.{CertAndKey}
use go_acme_store.Keystore.FileHost.{FileHost, IsSound}
use go_acme_store.Keystore.Filesystem.{
  Layout, layout_of, get_domain_file_path, store_cert_and_key, load_managed_domains,
}
use go_acme_store.Keystore.Filesystem.Reads.{domains-IsName, managed-IsName}

-- The file of the domain `../n` is `n.json` in the base directory, beside the account and the
-- list of managed domains.
pub path-dots :
    (base : FilePath) (n : String)
    → IsName (n <> ".json")
    → get_domain_file_path (layout_of base) ("../" <> n) ≡ join base (n <> ".json")
unfolding get_domain_file_path layout_of
path-dots base n h = rw (
  join_name base "domains" domains-IsName,
  append_assoc "../" n ".json",
  join_dots base "domains" (n <> ".json") h,
  join_name base (n <> ".json") h,
)

module _ (h : FileHost) (sound : IsSound h) (base : FilePath) where
  abbrev f : Layout
  f = layout_of base

  abbrev intruder : String
  intruder = "../managed-domains"

  intruder_path : get_domain_file_path f intruder ≡ f.managed_file
  unfolding layout_of
  intruder_path = path-dots base "managed-domains" managed-IsName

  -- Over a host that keeps its promises: a certificate that is stored with success for the domain
  -- ../managed-domains replaces the list of managed domains. The next load decodes the JSON of
  -- the certificate.
  pub load-store_intruder :
      (c : CertAndKey) (text : String) (disk : h.Disk)
      → h.certs.encode c ≡ ok text
      → (store_cert_and_key h f intruder c disk).0 ≡ ok tt
      → load_managed_domains h f (store_cert_and_key h f intruder c disk).1
        ≡ wrap "failed to unmarshal managed domains: " (h.domains.decode text)
  unfolding store_cert_and_key load_managed_domains
  load-store_intruder c text disk e r =
      rw intruder_path
        (ground (arith, sound.files.read-write f.managed_file text disk, intruder_path))
