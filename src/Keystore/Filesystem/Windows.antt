-- ===== src/Keystore/Filesystem/Windows.antt =====
-- `AddManagedDomainWithSANs` of filesystem.go and its certificate: what the domain has afterwards,
-- and what becomes of a certificate that another goroutine stores while the lock is given up.
use go_acme_store.Common.{String, ◌≡◌, List, some, ok, arith}
use go_acme_store.Host.Paths.{FilePath}
use go_acme_store.Keystore.Types.{CertAndKey}
use go_acme_store.Keystore.FileHost.{FileHost, IsSound}
use go_acme_store.Keystore.Adoption.{adoption, placeholder}
use go_acme_store.Keystore.Filesystem.{
  Layout, layout_of, get_cert_and_key, store_cert_and_key, register, add_with_windows,
}
use go_acme_store.Keystore.Filesystem.Reads.{get-store}

module _ (h : FileHost) (sound : IsSound h) (base : FilePath) where
  abbrev f : Layout
  f = layout_of base

  stored_chosen :
      (before_read before_write : h.Disk → h.Disk) (d : String) (sans : List String) (disk : h.Disk)
      (c : CertAndKey)
      → let read_on = before_read (register h f d sans disk).1 in
        (register h f d sans disk).0 ≡ ok tt
        → adoption d sans (get_cert_and_key h f d read_on) ≡ some c
        → (store_cert_and_key h f d c (before_write read_on)).0 ≡ ok tt
        → get_cert_and_key h f d (add_with_windows h f before_read before_write d sans disk).1
          ≡ ok c
  unfolding add_with_windows
  stored_chosen br bw d sans disk c registered chosen stored =
      ground (arith, get-store h sound base d c (bw (br (register h f d sans disk).1)) stored)

  -- Over a host that keeps its promises, where the registration and both stores succeed: a
  -- certificate that another goroutine stores for the domain after AddManagedDomainWithSANs has
  -- read a nameless one, and before it writes, is lost. The placeholder replaces it.
  pub lost_certificate :
      (d : String) (sans : List String) (disk : h.Disk) (c old : CertAndKey)
      → let d1 = (register h f d sans disk).1 in
        let renewal = λ (x : h.Disk). (store_cert_and_key h f d c x).1 in
        (register h f d sans disk).0 ≡ ok tt
        → get_cert_and_key h f d d1 ≡ ok old
        → old.common_name ≡ ""
        → (store_cert_and_key h f d c d1).0 ≡ ok tt
        → (store_cert_and_key h f d (placeholder d sans) (renewal d1)).0 ≡ ok tt
        → (get_cert_and_key h f d (renewal d1) ≡ ok c)
          × (get_cert_and_key h f d (add_with_windows h f (λ x. x) renewal d sans disk).1
              ≡ ok (placeholder d sans))
  lost_certificate d sans disk c old registered absent nameless renewed stored = (
    get-store h sound base d c _ renewed,
    stored_chosen (λ x. x) (λ x. (store_cert_and_key h f d c x).1) d sans disk (placeholder d sans)
        registered (unfold adoption in ground arith) stored,
  )
