-- ===== src/Fetcher/Fetch/Complete.antt =====
-- The loop of a fetch, where it counts no error.
use mathlib.Core.Path.{subst}
use go_acme_store.Common.{
  String, String-discrete, ◌≡◌, ◌≢◌, sym, ap, ◌∙◌, true, some, List, [], ◌∷◌, contains, All, arith,
  inl, inr, Option-cases,
}
use go_acme_store.Common.Dict.{Dict, lookup}
use go_acme_store.Host.Paths.{FilePath}
use go_acme_store.Fetcher.Client.{ApiCertInfo}
use go_acme_store.Fetcher.Files.{Host, IsSound, cert_file, key_file}
use go_acme_store.Fetcher.Fetch.{
  Answers, Outcome, saved, skipped, error, Counts, count, full_chain, fetch_domain, fetch_domains,
}
use go_acme_store.Fetcher.Fetch.Frame.{frame_domain}
use go_acme_store.Fetcher.Fetch.Current.{IsCurrent, domain-IsCurrent}
use go_acme_store.Fetcher.Traefik.{is_included}

-- The files of `x` are not those of `a`, if these are two domains.
abbrev pub Apart : FilePath → String → String → Type 0
Apart dir a x =
    x ≢ a
    → (cert_file dir a ≢ cert_file dir x)
      × (cert_file dir a ≢ key_file dir x)
      × (key_file dir a ≢ cert_file dir x)
      × (key_file dir a ≢ key_file dir x)

count_error :
    (o : Outcome) (t : Counts) → (count o t).error_count ≡ 0 → (o ≢ error) × (t.error_count ≡ 0)
unfolding count
count_error saved t e = (λ p. cc, e)
count_error skipped t e = (λ p. cc, e)
count_error error t e = absurd (omega arith)

module _ (h : Host) (sound : IsSound h) (api : Answers) (dir : FilePath) where
  open sound use {files}

  errors_grow :
      (certs : Dict ApiCertInfo) (ds : List String) (t : Counts) (d : h.Disk)
      → (fetch_domains h api dir certs ds t d).0.error_count ≡ 0
      → t.error_count ≡ 0
  unfolding fetch_domains
  errors_grow certs [] t d e = e
  errors_grow certs (x ∷ ds) t d e =
      let (o, d1) = fetch_domain h api dir certs x d in
      (count_error o t (errors_grow certs ds (count o t) d1 e)).1

  module _ (a : String) (two : cert_file dir a ≢ key_file dir a) (certs : Dict ApiCertInfo)
      (c : ApiCertInfo) (here : lookup a certs ≡ some c) (included : is_included c ≡ true) where
    abbrev IsFine : h.Disk → Type 0
    IsFine d = IsCurrent h sound api dir a (full_chain c) d

    pub framed :
        (d d1 : h.Disk)
        → h.os.read_file (cert_file dir a) d1 ≡ h.os.read_file (cert_file dir a) d
        → h.os.read_file (key_file dir a) d1 ≡ h.os.read_file (key_file dir a) d
        → IsFine d
        → IsFine d1
    framed d d1 p q v = record {
      chain_text = v.chain_text;
      key_text = v.key_text;
      key = v.key;
      chain_there = p ∙ v.chain_there;
      key_there = q ∙ v.key_there;
      same_chain = v.same_chain;
      same_key = v.same_key;
      right = v.right;
    }

    self-IsFine :
        (x : String) (d : h.Disk)
        → x ≡ a
        → (fetch_domain h api dir certs x d).0 ≢ error
        → IsFine (fetch_domain h api dir certs x d).1
    self-IsFine x d same fine =
        subst (λ y. IsFine (fetch_domain h api dir certs y d).1) (sym same)
          (domain-IsCurrent h sound api dir a two certs c d here included
            (λ bad. fine (ap (λ y. (fetch_domain h api dir certs y d).0) same ∙ bad)))

    other-IsFine :
        (x : String) (d : h.Disk)
        → Apart dir a x
        → x ≢ a
        → IsFine d
        → IsFine (fetch_domain h api dir certs x d).1
    other-IsFine x d apart ne v =
        let (p, q, r, s) = apart ne in
        framed d _ (frame_domain h sound api dir (cert_file dir a) certs x d p q)
          (frame_domain h sound api dir (key_file dir a) certs x d r s) v

    -- The rest of a loop without errors keeps what the files of `a` hold.
    kept :
        (ds : List String) (t : Counts) (d : h.Disk)
        → All (Apart dir a) ds
        → (fetch_domains h api dir certs ds t d).0.error_count ≡ 0
        → IsFine d
        → IsFine (fetch_domains h api dir certs ds t d).1
    unfolding fetch_domains
    kept [] t d hs e v = v
    kept (x ∷ ds) t d (hx, hs) e v =
        let (o, d1) = fetch_domain h api dir certs x d in
        let fine = (count_error o t (errors_grow certs ds (count o t) d1 e)).0 in
        kept ds (count o t) d1 hs e (elim (String-discrete x a) [
          | yes same ↦ self-IsFine x d same fine
          | no ne ↦ other-IsFine x d hx ne v
        ])

    pub loop-IsFine :
        (ds : List String) (t : Counts) (d : h.Disk)
        → All (Apart dir a) ds
        → contains ds a ≡ true
        → (fetch_domains h api dir certs ds t d).0.error_count ≡ 0
        → IsFine (fetch_domains h api dir certs ds t d).1
    unfolding fetch_domains
    loop-IsFine [] t d hs there e = absurd (ground arith)
    loop-IsFine (x ∷ ds) t d (hx, hs) there e =
        let (o, d1) = fetch_domain h api dir certs x d in
        let fine = (count_error o t (errors_grow certs ds (count o t) d1 e)).0 in
        elim (String-discrete x a) [
          | yes same ↦ kept ds (count o t) d1 hs e (self-IsFine x d same fine)
          | no ne ↦ loop-IsFine ds (count o t) d1 hs (ground arith) e
        ]

  found :
      (certs : Dict ApiCertInfo) (a : String) (d : h.Disk)
      → (fetch_domain h api dir certs a d).0 ≢ error
      → (c : ApiCertInfo) × (lookup a certs ≡ some c)
  unfolding fetch_domain
  found certs a d fine = elim (Option-cases (lookup a certs)) [
    | inl p ↦ absurd (fine (ground arith))
    | inr (c, p) ↦ (c, p)
  ]

  -- A managed domain of a loop without errors has a certificate.
  pub loop_found :
      (certs : Dict ApiCertInfo) (a : String) (ds : List String) (t : Counts) (d : h.Disk)
      → contains ds a ≡ true
      → (fetch_domains h api dir certs ds t d).0.error_count ≡ 0
      → (c : ApiCertInfo) × (lookup a certs ≡ some c)
  unfolding fetch_domains
  loop_found certs a [] t d there e = absurd (ground arith)
  loop_found certs a (x ∷ ds) t d there e =
      let (o, d1) = fetch_domain h api dir certs x d in
      let fine = (count_error o t (errors_grow certs ds (count o t) d1 e)).0 in
      elim (String-discrete x a) [
        | yes same ↦
            found certs a d
              (λ bad. fine (ap (λ y. (fetch_domain h api dir certs y d).0) same ∙ bad))
        | no ne ↦ loop_found certs a ds (count o t) d1 (ground arith) e
      ]
