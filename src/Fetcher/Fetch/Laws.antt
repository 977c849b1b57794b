-- ===== src/Fetcher/Fetch/Laws.antt =====
-- The counters of `performFetch`, and what a domain's files hold.
use go_acme_store.Common.{
  ℕ, ◌+◌, String, ◌≡◌, ◌≢◌, ◌⊎◌, true, not, ◌&&◌, some, List, [], ◌∷◌, ok, err, length, ◌==◌,
  ==_self, ==_ne, arith, inl, inr, Bool-cases, Result-cases,
}
use go_acme_store.Common.Dict.{Dict, lookup}
use go_acme_store.Host.Paths.{FilePath}
use go_acme_store.Host.Files.{done, not_exist}
use go_acme_store.Fetcher.Client.{ApiCertInfo}
use go_acme_store.Fetcher.Files.{
  Host, IsSound, cert_file, key_file, needs_certificate_update, compare_files,
}
use go_acme_store.Fetcher.Keys.{verify_key_pair_match}
use go_acme_store.Fetcher.Fetch.{
  Answers, Outcome, saved, skipped, error, Counts, count, full_chain, existing_key, key_for,
  write_files, update_files, fetch_found, fetch_domain, fetch_domains,
}

abbrev pub total : Counts → ℕ
total t = t.success_count + t.skip_count + t.error_count

count-total : (o : Outcome) (t : Counts) → total (count o t) ≡ total t + 1
unfolding count
count-total saved t = omega arith
count-total skipped t = omega arith
count-total error t = omega arith

module _ (h : Host) (api : Answers) (dir : FilePath) where
  -- Each managed domain of a fetch is counted exactly once, as saved, as skipped or as an error.
  pub fetch-total :
      (certs : Dict ApiCertInfo) (domains : List String) (t : Counts) (d : h.Disk)
      → total (fetch_domains h api dir certs domains t d).0 ≡ total t + length domains
  unfolding fetch_domains
  fetch-total certs [] t d = omega arith
  fetch-total certs (x ∷ domains) t d =
      let (o, d1) = fetch_domain h api dir certs x d in
      omega (arith, fetch-total certs domains (count o t) d1, count-total o t)

  module _ (sound : IsSound h) (domain : String)
      (two_files : cert_file dir domain ≢ key_file dir domain) (chain : String) where
    open sound use {files}

    -- Both files after a success.
    pub written :
        (key : String) (d d1 : h.Disk)
        → write_files h api dir domain chain key d ≡ (saved, d1)
        → (h.os.read_file (cert_file dir domain) d1 ≡ done chain)
          × (h.os.read_file (key_file dir domain) d1 ≡ done key)
    unfolding write_files
    written key d d1 e = elim (Result-cases (h.os.write_file (cert_file dir domain) chain d).0) [
      | inr (m, p) ↦ absurd (ground arith)
      | inl (u, p) ↦
          let mid : h.Disk = (h.os.write_file (cert_file dir domain) chain d).1 in
          elim (Result-cases (h.os.write_file (key_file dir domain) key mid).0) [
            | inr (m, q) ↦ absurd (ground arith)
            | inl (v, q) ↦ (
              ground (
                arith,
                files.read-write (cert_file dir domain) chain d,
                files.read-write_ne (cert_file dir domain) (key_file dir domain) key mid two_files,
              ),
              ground (arith, files.read-write (key_file dir domain) key mid),
            )
          ]
    ]

    -- Over a host that keeps its promises, where the two files of the domain have different
    -- names: if the file of the certificate is written, the key cannot be, and the first file can
    -- be removed, then the domain is an error and no certificate is left without its key. The
    -- file does not exist.
    pub failed_key_removes_cert :
        (key e : String) (d : h.Disk)
        → let d1 = (h.os.write_file (cert_file dir domain) chain d).1 in
          let d2 = (h.os.write_file (key_file dir domain) key d1).1 in
          (h.os.write_file (cert_file dir domain) chain d).0 ≡ ok tt
          → (h.os.write_file (key_file dir domain) key d1).0 ≡ err e
          → (h.os.remove (cert_file dir domain) d2).0 ≡ done tt
          → ((write_files h api dir domain chain key d).0 ≡ error)
            × (h.os.read_file (cert_file dir domain) (write_files h api dir domain chain key d).1
                ≡ not_exist)
    unfolding write_files
    failed_key_removes_cert key e d first second gone =
        let d1 : h.Disk = (h.os.write_file (cert_file dir domain) chain d).1 in
        let d2 : h.Disk = (h.os.write_file (key_file dir domain) key d1).1 in
        (
          ground arith,
          ground (arith, files.read-remove (cert_file dir domain) d2 (λ m p. ground arith)),
        )

    -- With matching files in place nothing is to be done, whatever key the API would send.
    again :
        (api' : Answers) (key : String) (d : h.Disk)
        → key ≢ ""
        → verify_key_pair_match h.parsers chain key ≡ true
        → h.os.read_file (cert_file dir domain) d ≡ done chain
        → h.os.read_file (key_file dir domain) d ≡ done key
        → update_files h api' dir domain chain d ≡ (skipped, d)
    unfolding update_files key_for existing_key needs_certificate_update compare_files
    again api' key d named match cert_there key_there = ground (
      arith,
      sound.exists-read (cert_file dir domain) chain d cert_there,
      sound.exists-read (key_file dir domain) key d key_there,
      ==_ne key "" named,
      ==_self (h.trim_space chain),
      ==_self (h.trim_space key),
    )

    pub update_saved :
        (key : String) (d d1 : h.Disk)
        → key_for h api dir domain chain d ≡ ok key
        → update_files h api dir domain chain d ≡ (saved, d1)
        → write_files h api dir domain chain key d ≡ (saved, d1)
    unfolding update_files
    update_saved key d d1 k e = ground arith

-- A certificate is skipped, or its files are updated, whatever the API answers and the disk holds.
found-cases :
    (h : Host) (dir : FilePath) (domain : String) (c : ApiCertInfo)
    → ((api : Answers) (d : h.Disk) → fetch_found h api dir domain c d ≡ (skipped, d))
      ⊎ ((api : Answers) (d : h.Disk)
          → fetch_found h api dir domain c d ≡ update_files h api dir domain (full_chain c) d)
unfolding fetch_found
found-cases h dir domain c = elim (Bool-cases c.managed) [
  | inr unmanaged ↦ inl (λ api d. ground arith)
  | inl managed ↦ elim (Bool-cases (not (c.status == "issued") && not (c.status == ""))) [
    | inl other ↦ inl (λ api d. ground arith)
    | inr fine ↦ elim (Bool-cases (c.leaf_cert_pem == "")) [
      | inl empty ↦ inl (λ api d. ground arith)
      | inr full ↦ inr (λ api d. ground arith)
    ]
  ]
]

-- Over a host that keeps its promises: after a domain was saved with a key that is not empty and
-- matches its certificate, the next fetch of the same certificate skips it and writes nothing,
-- whatever key the API would send then. The two files of the domain have different names.
pub refetch_skips :
    (h : Host) (sound : IsSound h) (api api' : Answers) (dir : FilePath) (domain key : String)
    (certs : Dict ApiCertInfo) (c : ApiCertInfo) (d d1 : h.Disk)
    → cert_file dir domain ≢ key_file dir domain
    → lookup domain certs ≡ some c
    → key_for h api dir domain (full_chain c) d ≡ ok key
    → key ≢ ""
    → verify_key_pair_match h.parsers (full_chain c) key ≡ true
    → fetch_domain h api dir certs domain d ≡ (saved, d1)
    → fetch_domain h api' dir certs domain d1 ≡ (skipped, d1)
unfolding fetch_domain
refetch_skips h sound api api' dir domain key certs c d d1 two here k named match e =
    elim (found-cases h dir domain c) [
      | inl never ↦ absurd (ground (arith, never api d))
      | inr always ↦
          let first : update_files h api dir domain (full_chain c) d ≡ (saved, d1) =
            ground (arith, always api d) in
          let (cert_there, key_there) =
            written h api dir sound domain two (full_chain c) key d d1
              (update_saved h api dir sound domain two (full_chain c) key d d1 k first) in
          ground (
            arith,
            always api' d1,
            again h api dir sound domain two (full_chain c) api' key d1 named match cert_there
                key_there,
          )
    ]
