-- ===== src/Fetcher/Fetch.antt =====
-- `performFetch`: the loop over the managed domains, its counters and the exit code.
pub mod Laws
pub mod Frame
pub mod Current
pub mod Complete
pub mod Success
use go_acme_store.Common.{
  ℕ, ◌+◌, String, Bool, true, false, not, ◌&&◌, ◌||◌, Option, none, some, List, [], ◌∷◌, Result, ok,
  err, Effect, ◌==◌, ltb, if◌then◌else◌,
}
use go_acme_store.Common.Dict.{Dict, lookup}
use go_acme_store.Host.Paths.{FilePath}
use go_acme_store.Host.Files.{Os, IoResult, done, not_exist, failed}
use go_acme_store.Fetcher.Client.{ApiCertInfo}
use go_acme_store.Fetcher.Files.{Host, cert_file, key_file, needs_certificate_update}
use go_acme_store.Fetcher.Keys.{verify_key_pair_match}
use go_acme_store.Fetcher.Traefik.{TraefikTls, generate_traefik_config}

-- What the requests of one fetch return.
pub record Answers : Type 0 where
  pub managed_domains : Result (List String)
  pub all_certs : Result (Dict ApiCertInfo)
  pub private_key : String → Result String

-- The counter that a domain raises.
pub data Outcome : Type 0 where
  saved : Outcome
  skipped : Outcome
  error : Outcome

pub record Counts : Type 0 where
  pub success_count : ℕ
  pub skip_count : ℕ
  pub error_count : ℕ

abbrev pub no_counts : Counts
no_counts = record { success_count = 0; skip_count = 0; error_count = 0 }

unfoldable pub count : Outcome → Counts → Counts
count saved t = record t { success_count = t.success_count + 1 }
count skipped t = record t { skip_count = t.skip_count + 1 }
count error t = record t { error_count = t.error_count + 1 }

-- The chain, or the leaf where it is empty.
unfoldable pub full_chain : ApiCertInfo → String
full_chain c = if c.cert_chain_pem == "" then c.leaf_cert_pem else c.cert_chain_pem

module _ (h : Host) (api : Answers) (dir : FilePath) where
  -- The key on disk, if it matches the chain, and the empty text otherwise.
  unfoldable pub existing_key : String → String → h.Disk → String
  existing_key domain chain disk = elim (h.os.read_file (key_file dir domain) disk) [
    | done key ↦ if verify_key_pair_match h.parsers chain key then key else ""
    | _ ↦ ""
  ]

  unfoldable pub key_for : String → String → h.Disk → Result String
  unfolding existing_key
  key_for domain chain disk =
      let key = existing_key domain chain disk in
      if key == "" then api.private_key domain else ok key

  -- Both writes, and the clean-up after the second. The error of the removal is dropped.
  unfoldable pub write_files : String → String → String → h.Disk → Outcome × h.Disk
  write_files domain chain key disk =
      let (r, d1) = h.os.write_file (cert_file dir domain) chain disk in
      elim r [
        | err e ↦ (error, d1)
        | ok _ ↦
            let (r', d2) = h.os.write_file (key_file dir domain) key d1 in
            elim r' [
              | ok _ ↦ (saved, d2)
              | err e ↦ (error, (h.os.remove (cert_file dir domain) d2).1)
            ]
      ]

  -- From the key on.
  unfoldable pub update_files : String → String → h.Disk → Outcome × h.Disk
  unfolding key_for write_files
  update_files domain chain disk = elim (key_for domain chain disk) [
    | err e ↦ (error, disk)
    | ok key ↦
        if (needs_certificate_update h (cert_file dir domain) (key_file dir domain) chain key
          disk).0
        then write_files domain chain key disk
        else (skipped, disk)
  ]

  unfoldable pub fetch_found : String → ApiCertInfo → h.Disk → Outcome × h.Disk
  unfolding full_chain update_files
  fetch_found domain c disk =
      if not c.managed
      then (skipped, disk)
      else if not (c.status == "issued") && not (c.status == "")
      then (skipped, disk)
      else if c.leaf_cert_pem == ""
      then (skipped, disk)
      else update_files domain (full_chain c) disk

  -- The body of the loop.
  unfoldable pub fetch_domain : Dict ApiCertInfo → String → h.Disk → Outcome × h.Disk
  unfolding fetch_found
  fetch_domain certs domain disk = elim (lookup domain certs) [
    | none ↦ (error, disk)
    | some c ↦ fetch_found domain c disk
  ]

  unfoldable pub fetch_domains : Dict ApiCertInfo → List String → Counts → h.Disk → Counts × h.Disk
  unfolding count
  fetch_domains certs [] t disk = (t, disk)
  fetch_domains certs (domain ∷ domains) t disk =
      let (o, d1) = fetch_domain certs domain disk in fetch_domains certs domains (count o t) d1

  module _ (marshal : TraefikTls → Result String) (traefik : Option FilePath) where
    -- The Traefik file, if one is wanted and something was saved.
    unfoldable pub write_traefik :
        Dict ApiCertInfo → List String → Counts → h.Disk → Counts × h.Disk
    write_traefik certs domains t disk = elim traefik [
      | none ↦ (t, disk)
      | some path ↦
          if ltb 0 t.success_count
          then (let (r, d1) = generate_traefik_config h marshal path dir domains certs disk in
              elim r [
                | err e ↦ (record t { error_count = t.error_count + 1 }, d1)
                | ok _ ↦ (t, d1)
              ])
          else (t, disk)
    ]

    unfoldable pub exit_code : Counts → ℕ
    exit_code t = if ltb 0 t.error_count then 1 else 0

    unfoldable pub perform_fetch : h.Disk → ℕ × h.Disk
    unfolding fetch_domains write_traefik exit_code
    perform_fetch disk = elim api.managed_domains [
      | err e ↦ (1, disk)
      | ok [] ↦ (0, disk)
      | ok (domain ∷ domains) ↦ elim api.all_certs [
        | err e ↦ (1, disk)
        | ok certs ↦
            let (t, d1) = fetch_domains certs (domain ∷ domains) no_counts disk in
            let (t', d2) = write_traefik certs (domain ∷ domains) t d1 in (exit_code t', d2)
      ]
    ]
