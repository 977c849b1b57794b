-- ===== src/Fetcher/Fetch/Frame.antt =====
-- The files of the other domains.
use go_acme_store.Common.{String, ◌≡◌, ◌≢◌, arith, inl, inr, Bool-cases, Result-cases, Option-cases}
use go_acme_store.Common.Dict.{Dict, lookup}
use go_acme_store.Host.Paths.{FilePath}
use go_acme_store.Fetcher.Client.{ApiCertInfo}
use go_acme_store.Fetcher.Files.{Host, IsSound, cert_file, key_file, needs_certificate_update}
use go_acme_store.Fetcher.Fetch.{
  Answers, full_chain, key_for, write_files, update_files, fetch_found, fetch_domain,
}

module _ (h : Host) (sound : IsSound h) (api : Answers) (dir : FilePath) where
  open sound use {files}

  -- A write or a removal at the files of `x`, which are not at `q`.
  frame_write :
      (q : FilePath) (x chain key : String) (d : h.Disk)
      → q ≢ cert_file dir x
      → q ≢ key_file dir x
      → h.os.read_file q (write_files h api dir x chain key d).1 ≡ h.os.read_file q d
  unfolding write_files
  frame_write q x chain key d n1 n2 =
      let d1 : h.Disk = (h.os.write_file (cert_file dir x) chain d).1 in
      let d2 : h.Disk = (h.os.write_file (key_file dir x) key d1).1 in
      let s1 = files.read-write_ne q (cert_file dir x) chain d n1 in
      let s2 = files.read-write_ne q (key_file dir x) key d1 n2 in
      let s3 = files.read-remove_ne q (cert_file dir x) d2 n1 in
      elim (Result-cases (h.os.write_file (cert_file dir x) chain d).0) [
        | inr (e, p) ↦ ground (arith, s1)
        | inl (u, p) ↦ elim (Result-cases (h.os.write_file (key_file dir x) key d1).0) [
          | inr (e, r) ↦ ground (arith, s1, s2, s3)
          | inl (v, r) ↦ ground (arith, s1, s2)
        ]
      ]

  frame_update :
      (q : FilePath) (x chain : String) (d : h.Disk)
      → q ≢ cert_file dir x
      → q ≢ key_file dir x
      → h.os.read_file q (update_files h api dir x chain d).1 ≡ h.os.read_file q d
  unfolding update_files
  frame_update q x chain d n1 n2 = elim (Result-cases (key_for h api dir x chain d)) [
    | inr (e, p) ↦ ground arith
    | inl (key, p) ↦
        elim (Bool-cases
          (needs_certificate_update h (cert_file dir x) (key_file dir x) chain key d).0) [
            | inl needed ↦ ground (arith, frame_write q x chain key d n1 n2)
            | inr fine ↦ ground arith
          ]
  ]

  pub frame_domain :
      (q : FilePath) (certs : Dict ApiCertInfo) (x : String) (d : h.Disk)
      → q ≢ cert_file dir x
      → q ≢ key_file dir x
      → h.os.read_file q (fetch_domain h api dir certs x d).1 ≡ h.os.read_file q d
  unfolding fetch_domain fetch_found
  frame_domain q certs x d n1 n2 = elim (Option-cases (lookup x certs)) [
    | inl p ↦ ground arith
    | inr (c, p) ↦ ground (arith, frame_update q x (full_chain c) d n1 n2)
  ]
