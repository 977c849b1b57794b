-- ===== src/Fetcher/Fetch/Current.antt =====
-- What the files hold after a fetch without errors.
use mathlib.Core.Path.{subst}
use go_acme_store.Common.{
  String, String-discrete, ◌≡◌, ◌≢◌, ◌⊎◌, refl, sym, ap, ◌∙◌, true, false, some, ok, arith, inl,
  inr, Bool-cases, Result-cases,
}
use go_acme_store.Common.Dict.{Dict, lookup}
use go_acme_store.Host.Paths.{FilePath}
use go_acme_store.Host.Files.{IoResult, done, not_exist, failed}
use go_acme_store.Fetcher.Client.{ApiCertInfo}
use go_acme_store.Fetcher.Files.{
  Host, IsSound, cert_file, key_file, needs_certificate_update, compare_files,
}
use go_acme_store.Fetcher.Keys.{verify_key_pair_match}
use go_acme_store.Fetcher.Fetch.{
  Answers, Outcome, saved, error, full_chain, existing_key, key_for, write_files, update_files,
  fetch_found, fetch_domain,
}
use go_acme_store.Fetcher.Fetch.Laws.{written}
use go_acme_store.Fetcher.Traefik.{is_included}

read-cases :
    (r : IoResult String)
    → ((text : String) × (r ≡ done text)) ⊎ (r ≡ not_exist) ⊎ ((e : String) × (r ≡ failed e))
read-cases (done text) = inl (text, refl)
read-cases not_exist = inr (inl refl)
read-cases (failed e) = inr (inr (e, refl))

module _ (h : Host) (sound : IsSound h) (api : Answers) (dir : FilePath) where
  open sound use {files}

  -- The two files of `a` hold the chain, but for blanks, and a key: one that matches the chain or
  -- the one that the API sends.
  pub record IsCurrent (a chain : String) (d : h.Disk) : Type 0 where
    pub chain_text : String
    pub key_text : String
    pub key : String
    pub chain_there : h.os.read_file (cert_file dir a) d ≡ done chain_text
    pub key_there : h.os.read_file (key_file dir a) d ≡ done key_text
    pub same_chain : h.trim_space chain_text ≡ h.trim_space chain
    pub same_key : h.trim_space key_text ≡ h.trim_space key
    pub right : (verify_key_pair_match h.parsers chain key ≡ true) ⊎ (api.private_key a ≡ ok key)

  existing_matches :
      (a chain : String) (d : h.Disk)
      → existing_key h api dir a chain d ≢ ""
      → verify_key_pair_match h.parsers chain (existing_key h api dir a chain d) ≡ true
  unfolding existing_key
  existing_matches a chain d given = elim (read-cases (h.os.read_file (key_file dir a) d)) [
    | inr (inl p) ↦ absurd (given (ground arith))
    | inr (inr (e, p)) ↦ absurd (given (ground arith))
    | inl (text, p) ↦ elim (Bool-cases (verify_key_pair_match h.parsers chain text)) [
      | inl yes_it ↦ ground arith
      | inr no_it ↦ absurd (given (ground arith))
    ]
  ]

  -- The key that a fetch works with.
  right_key :
      (a chain key : String) (d : h.Disk)
      → key_for h api dir a chain d ≡ ok key
      → (verify_key_pair_match h.parsers chain key ≡ true) ⊎ (api.private_key a ≡ ok key)
  unfolding key_for
  right_key a chain key d e = elim (String-discrete (existing_key h api dir a chain d) "") [
    | yes p ↦ inr (ground arith)
    | no n ↦
        let same : existing_key h api dir a chain d ≡ key = ground arith in
        inl (
          subst (λ k. verify_key_pair_match h.parsers chain k ≡ true) same
            (existing_matches a chain d n))
  ]

  unchanged :
      (a chain key : String) (d : h.Disk)
      → key_for h api dir a chain d ≡ ok key
      → (needs_certificate_update h (cert_file dir a) (key_file dir a) chain key d).0 ≡ false
      → IsCurrent a chain d
  unfolding needs_certificate_update compare_files
  unchanged a chain key d k e = elim (read-cases (h.os.read_file (cert_file dir a) d)) [
    | inr (inl p) ↦ absurd (ground arith)
    | inr (inr (m, p)) ↦ absurd (ground arith)
    | inl (old_chain, p) ↦ elim (read-cases (h.os.read_file (key_file dir a) d)) [
      | inr (inl q) ↦ absurd (ground arith)
      | inr (inr (m, q)) ↦ absurd (ground arith)
      | inl (old_key, q) ↦ record {
        chain_text = old_chain;
        key_text = old_key;
        key = key;
        chain_there = p;
        key_there = q;
        same_chain = ground arith;
        same_key = ground arith;
        right = right_key a chain key d k;
      }
    ]
  ]

  write-cases :
      (a chain key : String) (d : h.Disk)
      → ((write_files h api dir a chain key d).0 ≡ saved)
        ⊎ ((write_files h api dir a chain key d).0 ≡ error)
  unfolding write_files
  write-cases a chain key d =
      let d1 : h.Disk = (h.os.write_file (cert_file dir a) chain d).1 in
      elim (Result-cases (h.os.write_file (cert_file dir a) chain d).0) [
        | inr (e, p) ↦ inr (ground arith)
        | inl (u, p) ↦ elim (Result-cases (h.os.write_file (key_file dir a) key d1).0) [
          | inr (e, q) ↦ inr (ground arith)
          | inl (v, q) ↦ inl (ground arith)
        ]
      ]

  module _ (a : String) (two : cert_file dir a ≢ key_file dir a) where
    saved-IsCurrent :
        (chain key : String) (d : h.Disk)
        → key_for h api dir a chain d ≡ ok key
        → (write_files h api dir a chain key d).0 ≡ saved
        → IsCurrent a chain (write_files h api dir a chain key d).1
    saved-IsCurrent chain key d k p =
        let d1 : h.Disk = (write_files h api dir a chain key d).1 in
        let both : write_files h api dir a chain key d ≡ (saved, d1) =
          ap (λ (o : Outcome). (o, d1)) p in
        let (chain_there, key_there) = written h api dir sound a two chain key d d1 both in
        record {
          chain_text = chain;
          key_text = key;
          key = key;
          chain_there = chain_there;
          key_there = key_there;
          same_chain = refl;
          same_key = refl;
          right = right_key a chain key d k;
        }

    -- What a domain's files hold, unless it is counted as an error.
    update-IsCurrent :
        (chain : String) (d : h.Disk)
        → (update_files h api dir a chain d).0 ≢ error
        → IsCurrent a chain (update_files h api dir a chain d).1
    unfolding update_files
    update-IsCurrent chain d fine = elim (Result-cases (key_for h api dir a chain d)) [
      | inr (e, p) ↦ absurd (fine (ground arith))
      | inl (key, p) ↦
          elim (Bool-cases
            (needs_certificate_update h (cert_file dir a) (key_file dir a) chain key d).0) [
              | inr same ↦
                  let eq : (update_files h api dir a chain d).1 ≡ d = ground arith in
                  subst (λ t. IsCurrent a chain t) (sym eq) (unchanged a chain key d p same)
              | inl needed ↦
                  let eq : update_files h api dir a chain d ≡ write_files h api dir a chain key d =
                    ground arith in
                  elim (write-cases a chain key d) [
                    | inr bad ↦ absurd (fine (ap (λ (r : Outcome × h.Disk). r.0) eq ∙ bad))
                    | inl good ↦
                        subst (λ (r : Outcome × h.Disk). IsCurrent a chain r.1) (sym eq)
                          (saved-IsCurrent chain key d p good)
                  ]
            ]
    ]

    module _ (certs : Dict ApiCertInfo) where
      updated :
          (c : ApiCertInfo) (d : h.Disk)
          → lookup a certs ≡ some c
          → is_included c ≡ true
          → fetch_domain h api dir certs a d ≡ update_files h api dir a (full_chain c) d
      unfolding fetch_domain fetch_found is_included
      updated c d here included = ground arith

      pub domain-IsCurrent :
          (c : ApiCertInfo) (d : h.Disk)
          → lookup a certs ≡ some c
          → is_included c ≡ true
          → (fetch_domain h api dir certs a d).0 ≢ error
          → IsCurrent a (full_chain c) (fetch_domain h api dir certs a d).1
      domain-IsCurrent c d here included fine =
          let eq : fetch_domain h api dir certs a d ≡ update_files h api dir a (full_chain c) d =
            updated c d here included in
          subst (λ (r : Outcome × h.Disk). IsCurrent a (full_chain c) r.1) (sym eq)
            (update-IsCurrent (full_chain c) d
              (λ bad. fine (ap (λ (r : Outcome × h.Disk). r.0) eq ∙ bad)))
