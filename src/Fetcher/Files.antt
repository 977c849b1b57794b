-- ===== src/Fetcher/Files.antt =====
-- The files of a domain, and `needsCertificateUpdate`.
use Prim.Native.Char.{Char, code}
use Prim.Native.Nat.{compare, Ordering}
use go_acme_store.Common.{
  String, ◌<>◌, ◌≡◌, Bool, true, false, not, ◌&&◌, ◌||◌, ◌==◌, if◌then◌else◌,
}
use go_acme_store.Host.Paths.{FilePath, join}
use go_acme_store.Host.Files.{Os, done, IsFaithful}
use go_acme_store.Fetcher.Keys.{Parsers, verify_key_pair_match}

-- `os`, `os.Stat` without its result, `bytes.TrimSpace` and the parsers.
pub record Host : Type 1 where
  pub os : Os
  pub open os use {Disk}
  pub exists : FilePath → Disk → Bool
  pub trim_space : String → String
  pub parsers : Parsers

pub record IsSound (h : Host) : Type 0 where
  pub files : IsFaithful h.os
  -- A file that can be read is there.
  pub exists-read :
      (p : FilePath) (text : String) (d : h.Disk)
      → h.os.read_file p d ≡ done text
      → h.exists p d ≡ true

is_star : Char → Bool
is_star c = elim (compare (code c) b'*') [ Ordering.eq ↦ true | _ ↦ false ]

-- `strings.ReplaceAll(domain, "*", "_wild_")`
unfoldable pub safe_domain : String → String
unfolding is_star
safe_domain String.[] = ""
safe_domain (String.◌∷◌ c s) =
    let rest = safe_domain s in if is_star c then "_wild_" <> rest else String.◌∷◌ c rest

unfoldable pub cert_file : FilePath → String → FilePath
unfolding safe_domain
cert_file dir domain = join dir (safe_domain domain <> "_cert-chain.pem")

unfoldable pub key_file : FilePath → String → FilePath
unfolding safe_domain
key_file dir domain = join dir (safe_domain domain <> "_key.pem")

module _ (h : Host) where
  -- After both files were read.
  unfoldable pub compare_files : String → String → String → String → Bool × String
  compare_files old_cert old_key new_cert new_key =
      if not (h.trim_space old_cert == h.trim_space new_cert)
      then (true, "cert_changed")
      else if not (h.trim_space old_key == h.trim_space new_key)
      then (true, "key_changed")
      else if not (verify_key_pair_match h.parsers new_cert new_key)
      then (true, "key_mismatch")
      else (false, "unchanged")

  unfoldable pub needs_certificate_update :
      FilePath → FilePath → String → String → h.Disk → Bool × String
  unfolding compare_files
  needs_certificate_update cert key new_cert new_key disk =
      if not (h.exists cert disk) || not (h.exists key disk)
      then (if not (h.exists cert disk) && not (h.exists key disk)
          then (true, "files_missing")
          else if not (h.exists cert disk)
          then (true, "cert_missing")
          else (true, "key_missing"))
      else elim (h.os.read_file cert disk) [
        | done old_cert ↦ elim (h.os.read_file key disk) [
          | done old_key ↦ compare_files old_cert old_key new_cert new_key
          | _ ↦ (true, "read_error")
        ]
        | _ ↦ (true, "read_error")
      ]
