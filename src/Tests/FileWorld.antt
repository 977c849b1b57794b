-- ===== src/Tests/FileWorld.antt =====
-- A disk whose files never fail.

use go_acme_store.Common.{String, String-discrete, ◌≡◌, ◌≢◌, refl, [], ◌∷◌, ok, arith}
use go_acme_store.Host.Paths.{FilePath}
use go_acme_store.Host.Files.{Os, IsFaithful, IoResult, done, not_exist}
use go_acme_store.Keystore.FileHost.{FileHost, IsSound}
use go_acme_store.Tests.Codecs.{
  accounts, accounts-IsRoundTrip, certs, certs-IsRoundTrip, domains, domains-IsRoundTrip,
}

unfoldable pub FilePath-discrete : (p q : FilePath) → Dec (p ≡ q)
FilePath-discrete [] [] = yes refl
FilePath-discrete [] (y ∷ q) = no (λ e. cc)
FilePath-discrete (x ∷ p) [] = no (λ e. cc)
FilePath-discrete (x ∷ p) (y ∷ q) =
    let rest = FilePath-discrete p q in
    elim (String-discrete x y) [
      | no ne ↦ no (λ e. ne cc)
      | yes e ↦ elim rest [ no ne ↦ no (λ e. ne cc) | yes e' ↦ yes (λ i. e i ∷ e' i) ]
    ]

abbrev pub Disk : Type 0
Disk = FilePath → IoResult String

abbrev pub set : FilePath → IoResult String → Disk → Disk
set p r d q = elim (FilePath-discrete q p) [ yes e ↦ r | no ne ↦ d q ]

pub set_same : (p : FilePath) (r : IoResult String) (d : Disk) → set p r d p ≡ r
set_same p r d = ground arith

pub set_other : (q p : FilePath) (r : IoResult String) (d : Disk) → q ≢ p → set p r d q ≡ d q
set_other q p r d ne = ground arith

abbrev pub os : Os
os = record {
  Disk = Disk;
  read_file = λ p d. d p;
  write_file = λ p text d. (ok tt, set p (done text) d);
  remove = λ p d. (done tt, set p not_exist d);
  read_dir = λ p d. done [];
  mkdir_all = λ p d. (ok tt, d);
}

pub os-IsFaithful : IsFaithful os
os-IsFaithful = record {
  read-write = λ p text d e. set_same p (done text) d;
  read-write_ne = λ q p text d ne. set_other q p (done text) d ne;
  read-remove = λ p d e. set_same p not_exist d;
  read-remove_ne = λ q p d ne. set_other q p not_exist d ne;
  read-mkdir = λ q p d. refl;
}

abbrev pub host : FileHost
host = record { os = os; accounts = accounts; certs = certs; domains = domains }

pub host-IsSound : IsSound host
host-IsSound = record {
  files = os-IsFaithful;
  accounts = accounts-IsRoundTrip;
  certs = certs-IsRoundTrip;
  domains = domains-IsRoundTrip;
}

-- Nothing is written yet.
abbrev pub blank : Disk
blank p = not_exist
