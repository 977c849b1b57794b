-- ===== src/Fetcher/Fetch/Success.antt =====
-- A fetch that ends with exit code 0.
use mathlib.Core.Path.{subst}
use go_acme_store.Common.{
  String, ◌≡◌, ◌≢◌, ◌⊎◌, refl, sym, true, false, Option, none, some, List, [], ◌∷◌, Result, ok,
  contains, All, arith, inl, inr, Bool-cases, Result-cases, Option-cases, ltb,
}
use go_acme_store.Common.Dict.{Dict, lookup}
use go_acme_store.Host.Paths.{FilePath}
use go_acme_store.Fetcher.Client.{ApiCertInfo}
use go_acme_store.Fetcher.Files.{Host, IsSound, cert_file, key_file}
use go_acme_store.Fetcher.Fetch.{
  Answers, Counts, no_counts, full_chain, fetch_domains, write_traefik, exit_code, perform_fetch,
}
use go_acme_store.Fetcher.Fetch.Current.{IsCurrent}
use go_acme_store.Fetcher.Traefik.{
  TraefikTls, traefik_certificates, generate_traefik_config, is_included,
}
use go_acme_store.Fetcher.Fetch.Complete.{framed, Apart, loop-IsFine, loop_found}

-- The Traefik file, if one is written, is not one of the files of `a`.
abbrev pub ApartFile : FilePath → String → Option FilePath → Type 0
ApartFile dir a none = Unit
ApartFile dir a (some path) = (cert_file dir a ≢ path) × (key_file dir a ≢ path)

list-cases : {A : Type 0} (l : List A) → (l ≡ []) ⊎ ((x : A) × (xs : List A) × (l ≡ x ∷ xs))
list-cases [] = inl refl
list-cases (x ∷ xs) = inr (x, xs, refl)

module _ (h : Host) (sound : IsSound h) (api : Answers) (dir : FilePath)
    (marshal : TraefikTls → Result String) where
  open sound use {files}

  generate_frame :
      (q path : FilePath) (ds : List String) (certs : Dict ApiCertInfo) (d : h.Disk)
      → q ≢ path
      → h.os.read_file q (generate_traefik_config h marshal path dir ds certs d).1
        ≡ h.os.read_file q d
  unfolding generate_traefik_config
  generate_frame q path ds certs d ne = elim (list-cases (traefik_certificates dir certs ds)) [
    | inl p ↦ ground arith
    | inr (c, cs, p) ↦
        let tls : TraefikTls = record {
          options = ("default", "VersionTLS12") ∷ ("mintls13", "VersionTLS13") ∷ [];
          certificates = c ∷ cs;
        } in
        elim (Result-cases (marshal tls)) [
          | inr (e, r) ↦ ground arith
          | inl (yaml, r) ↦ ground (arith, files.read-write_ne q path yaml d ne)
        ]
  ]

  module _ (traefik : Option FilePath) where
    -- An error stays one.
    traefik_errors :
        (certs : Dict ApiCertInfo) (ds : List String) (t : Counts) (d : h.Disk)
        → (write_traefik h api dir marshal traefik certs ds t d).0.error_count ≡ 0
        → t.error_count ≡ 0
    unfolding write_traefik
    traefik_errors certs ds t d e = elim (Option-cases traefik) [
      | inl p ↦ ground arith
      | inr (path, p) ↦ elim (Bool-cases (ltb 0 t.success_count)) [
        | inr nothing ↦ ground arith
        | inl some_saved ↦
            elim (Result-cases (generate_traefik_config h marshal path dir ds certs d).0) [
              | inl (u, q) ↦ ground arith
              | inr (m, q) ↦ absurd (ground arith)
            ]
      ]
    ]

    -- Other files are left alone.
    traefik_frame :
        (q : FilePath) (certs : Dict ApiCertInfo) (ds : List String) (t : Counts) (d : h.Disk)
        → ((path : FilePath) → traefik ≡ some path → q ≢ path)
        → h.os.read_file q (write_traefik h api dir marshal traefik certs ds t d).1
          ≡ h.os.read_file q d
    unfolding write_traefik
    traefik_frame q certs ds t d apart = elim (Option-cases traefik) [
      | inl p ↦ ground arith
      | inr (path, p) ↦ elim (Bool-cases (ltb 0 t.success_count)) [
        | inr nothing ↦ ground arith
        | inl some_saved ↦
            let frame = generate_frame q path ds certs d (apart path p) in
            elim (Result-cases (generate_traefik_config h marshal path dir ds certs d).0) [
              | inl (u, r) ↦ ground (arith, frame)
              | inr (m, r) ↦ ground (arith, frame)
            ]
      ]
    ]

    -- What a fetch with exit code 0 went through, if there was a domain.
    went :
        (d : h.Disk) (x : String) (ds : List String)
        → api.managed_domains ≡ ok (x ∷ ds)
        → (perform_fetch h api dir marshal traefik d).0 ≡ 0
        → (certs : Dict ApiCertInfo) × (api.all_certs ≡ ok certs)
          × (let r = fetch_domains h api dir certs (x ∷ ds) no_counts d in
              let w = write_traefik h api dir marshal traefik certs (x ∷ ds) r.0 r.1 in
              (w.0.error_count ≡ 0) × ((perform_fetch h api dir marshal traefik d).1 ≡ w.1))
    unfolding perform_fetch exit_code
    went d x ds listed fine = elim (Result-cases api.all_certs) [
      | inr (e, p) ↦ absurd (ground arith)
      | inl (certs, p) ↦ (certs, p, (ground arith, ground arith))
    ]

    apart_path :
        (a : String) (path : FilePath)
        → ApartFile dir a traefik
        → traefik ≡ some path
        → (cert_file dir a ≢ path) × (key_file dir a ≢ path)
    apart_path a path apart e = subst (λ t. ApartFile dir a t) e apart

    -- Over a host that keeps its promises: if a fetch ends with exit code 0, every managed domain
    -- has a certificate in the answer of the API. If that one is managed, issued and not empty,
    -- then afterwards the two files of the domain hold its chain, but for blanks, and a key that
    -- matches the chain or is the one that the API sends. The files of the domain have different
    -- names, and they are not those of another managed domain or the Traefik file.
    pub fetch_success :
        (d : h.Disk) (ds : List String) (a : String)
        → api.managed_domains ≡ ok ds
        → contains ds a ≡ true
        → cert_file dir a ≢ key_file dir a
        → All (Apart dir a) ds
        → ApartFile dir a traefik
        → (perform_fetch h api dir marshal traefik d).0 ≡ 0
        → (certs : Dict ApiCertInfo) × (c : ApiCertInfo) × (api.all_certs ≡ ok certs)
          × (lookup a certs ≡ some c)
          × ((is_included c ≡ false)
              ⊎ IsCurrent h sound api dir a
                  (full_chain c)
                  (perform_fetch h api dir marshal traefik d).1)
    fetch_success d [] a listed there two hs apart fine = absurd (ground arith)
    fetch_success d (x ∷ ds) a listed there two hs apart fine =
        let (certs, got, (none_failed, end)) = went d x ds listed fine in
        let r = fetch_domains h api dir certs (x ∷ ds) no_counts d in
        let e = traefik_errors certs (x ∷ ds) r.0 r.1 none_failed in
        let (c, here) = loop_found h sound api dir certs a (x ∷ ds) no_counts d there e in
        (
          certs,
          c,
          got,
          here,
          elim (Bool-cases (is_included c)) [
            | inr out ↦ inl out
            | inl included ↦ inr (
                subst (λ t. IsCurrent h sound api dir a (full_chain c) t) (sym end)
                  (framed h sound api dir a two certs c here included r.1 _
                    (traefik_frame (cert_file dir a) certs (x ∷ ds) r.0 r.1
                      (λ path p. (apart_path a path apart p).0))
                    (traefik_frame (key_file dir a) certs (x ∷ ds) r.0 r.1
                      (λ path p. (apart_path a path apart p).1))
                    (loop-IsFine h sound api dir a two certs c here included (x ∷ ds) no_counts d hs
                      there e)))
          ],
        )
