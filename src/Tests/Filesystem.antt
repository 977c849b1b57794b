-- ===== src/Tests/Filesystem.antt =====
-- The filesystem back end on a disk, and the daemon over it.
use go_acme_store.Common.{
  ltb, String, String-discrete, ◌<>◌, ◌≡◌, refl, true, [], ◌∷◌, ok, err, wrap, Result,
}
use go_acme_store.Common.Dict.{lookup}
use go_acme_store.Host.Paths.{FilePath, join, push, split_path, IsName, IsName-check}
use go_acme_store.Keystore.Types.{AcmeAccount, CertAndKey, no_cert}
use go_acme_store.Keystore.Laws.{IsLawful}
use go_acme_store.Keystore.Named.{is_listed}
use go_acme_store.Keystore.Adoption.{adoption, placeholder}
use go_acme_store.Keystore.Filesystem.{
  Layout, layout_of, get_domain_file_path, get_acme_account, load_account, store_account,
  get_cert_and_key, store_cert_and_key, load_managed_domains, store_managed_domains, register,
  get_leaf_cert as leaf_in_files, add_with_windows, filesystem, add_managed_domain_with_sans,
}
use go_acme_store.Keystore.Filesystem.Reads.{IsPlain}
use go_acme_store.Keystore.Filesystem.Laws.{filesystem-IsLawful}
use go_acme_store.Keystore.Filesystem.Windows.{lost_certificate}
use go_acme_store.Keystore.Filesystem.Traversal.{path-dots, load-store_intruder}
use go_acme_store.Keystore.Filesystem.Open.{ensure_account, new_filesystem_keystore, account-reopen}
use go_acme_store.Acme.Renewal.{
  Env, retrieve_acme_account, renew_cert_if_needed, store_obtained, key_pem,
}
use go_acme_store.Acme.Solvers.{get_solver, get_acmedns_solver, resolvers_of}
use go_acme_store.Crypto.Certificates.{
  block_certs, certs_loop, get_certs, first_leaf, get_leaf_cert, check_if_cert_needs_update,
  ca_names, get_issuers_cn, cert_to_pem,
}
use go_acme_store.Crypto.Keys.{encode_private_key, decode_private_key, find_key}
use go_acme_store.Keystore.Issued.{new_cert_and_key, populate_missing_fields, name_of}
use go_acme_store.Worker.{order_domain, is_skipped, sans_for}
use go_acme_store.Worker.Requests.{Obtain, with_obtain, order_asks_domain_alone}
use go_acme_store.Tests.Codecs.{domains, read_texts, write_texts}
use go_acme_store.Tests.FileWorld.{FilePath-discrete, host, host-IsSound, blank, Disk}
use go_acme_store.Tests.World.{account, cert_named, env, issued, obtained}

abbrev base : FilePath
base = "data" ∷ []

abbrev layout : Layout
layout = layout_of base

filesystem-IsLawful_example : IsLawful (filesystem host layout) IsPlain
filesystem-IsLawful_example = filesystem-IsLawful host host-IsSound base

secret-IsName : IsName ("secret" <> ".json")
unfolding split_path
secret-IsName = IsName-check "secret.json" refl refl

path-dots_example :
    get_domain_file_path layout ("../" <> "secret") ≡ join base ("secret" <> ".json")
path-dots_example = path-dots base "secret" secret-IsName

load-store_intruder_example :
    load_managed_domains host layout
      (store_cert_and_key host layout "../managed-domains" no_cert blank).1
    ≡ wrap "failed to unmarshal managed domains: " (
        domains.decode
          (write_texts ("" ∷ "" ∷ "" ∷ "" ∷ "" ∷ "" ∷ "" ∷ "" ∷ "" ∷ "no" ∷ "" ∷ "" ∷ [])))
unfolding store_cert_and_key write_texts
load-store_intruder_example = load-store_intruder host host-IsSound base no_cert _ blank refl refl

-- What the domain's certificate is while the lock is given up, and the disk afterwards.
abbrev read_before : Result CertAndKey
read_before = get_cert_and_key host layout "a.example" (register host layout "a.example" [] blank).1

abbrev disk_after : Disk
disk_after = (add_with_windows host layout (λ d. d) (λ d. d) "a.example" [] blank).1

lost_certificate_example :
    (get_cert_and_key host layout "a.example"
        (store_cert_and_key host layout "a.example"
          (cert_named "a.example")
          (register host layout "a.example" [] blank).1).1
      ≡ ok (cert_named "a.example"))
    × (get_cert_and_key host layout "a.example"
          (add_with_windows host layout
            (λ d. d)
            (λ d. (store_cert_and_key host layout "a.example" (cert_named "a.example") d).1)
            "a.example"
            []
            blank).1
        ≡ ok (placeholder "a.example" []))
unfolding register load_managed_domains store_managed_domains get_cert_and_key store_cert_and_key
    is_listed layout_of get_domain_file_path join push split_path String-discrete FilePath-discrete
lost_certificate_example =
    lost_certificate host host-IsSound base "a.example" [] blank (cert_named "a.example") no_cert
      refl refl refl refl refl

abbrev disk_of : String → Result String → Disk → Disk
disk_of email key d = (new_filesystem_keystore host "/data" email true key d).1

account-reopen_example :
    (a : AcmeAccount) × (get_acme_account host
        (layout_of (join [] "/data"))
        (disk_of "ops@example" (ok "key") blank)
      ≡ ok a)
    × (get_acme_account host
          (layout_of (join [] "/data"))
          (disk_of "other@example" (ok "other") (disk_of "ops@example" (ok "key") blank))
        ≡ ok a)
unfolding new_filesystem_keystore ensure_account load_account store_account layout_of join push
    split_path String-discrete FilePath-discrete
account-reopen_example =
    account-reopen host host-IsSound "/data" "ops@example" "other@example" (ok "key") (ok "other")
      blank (layout_of (join [] "/data")) refl

-- A provider that refuses a request for more than one name.
abbrev refuses_more : Obtain (env 80 issued)
refuses_more solver _ key names = elim names [
  | [] ↦ issued
  | name ∷ [] ↦ issued
  | name ∷ san ∷ more ↦ err "too many names"
]

abbrev strict : Env
strict = with_obtain (env 80 issued) refuses_more

-- The account is there, and a.example was added with a second name.
abbrev prepared : Disk
prepared =
    (add_managed_domain_with_sans host layout "a.example" ("www.a.example" ∷ [])
      (store_account host layout account blank).1).1

order_asks_domain_alone_example :
    order_domain (filesystem host layout) (λ _. env 80 issued) "a.example" prepared
    ≡ order_domain (filesystem host layout) (λ _. strict) "a.example" prepared
order_asks_domain_alone_example =
    order_asks_domain_alone (filesystem host layout) (env 80 issued) refuses_more "a.example"
      prepared refl (λ solver account key. refl)

-- The second name is registered, and the strict provider is asked, and issues.
sans_registered :
    load_managed_domains host layout prepared
    ≡ ok (record { domain = "a.example"; sans = "www.a.example" ∷ [] } ∷ [])
unfolding load_managed_domains add_managed_domain_with_sans register store_account FilePath-discrete
    layout_of join String-discrete is_listed store_managed_domains adoption get_cert_and_key
    get_domain_file_path store_cert_and_key read_texts write_texts
sans_registered = refl

strict_issues :
    get_cert_and_key host layout "a.example"
      (order_domain (filesystem host layout) (λ _. strict) "a.example" prepared)
    ≡ ok obtained
unfolding load_managed_domains add_managed_domain_with_sans register store_account FilePath-discrete
    layout_of join String-discrete is_listed store_managed_domains adoption get_cert_and_key
    get_domain_file_path store_cert_and_key read_texts write_texts order_domain is_skipped sans_for
    renew_cert_if_needed retrieve_acme_account get_acme_account load_account get_solver
    get_acmedns_solver resolvers_of store_obtained key_pem encode_private_key decode_private_key
    find_key new_cert_and_key populate_missing_fields name_of check_if_cert_needs_update first_leaf
    get_certs get_leaf_cert certs_loop block_certs cert_to_pem get_issuers_cn ca_names leaf_in_files
    push split_path ltb lookup
strict_issues = refl
