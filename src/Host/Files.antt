-- ===== src/Host/Files.antt =====
-- The file operations of package `os`. A disk is abstract: it may also hold what makes a call fail.
use go_acme_store.Common.{String, refl, ◌⊎◌, inl, inr, ◌≡◌, ◌≢◌, Bool, List, ok, Effect}
use go_acme_store.Host.Paths.{FilePath}

-- A result of package `os`, where `os.IsNotExist` singles out one kind of error.
pub data IoResult {ℓ} (A : Type ℓ) : Type ℓ where
  done : A → IoResult A
  not_exist : IoResult A
  failed : String → IoResult A

pub IoResult-cases {ℓ} :
    {A : Type ℓ} (r : IoResult A) → ((e : String) → r ≢ failed e) ⊎ ((e : String) × (r ≡ failed e))
IoResult-cases (done a) = inl (λ e p. cc)
IoResult-cases not_exist = inl (λ e p. cc)
IoResult-cases (failed e) = inr (e, refl)

-- An `os.DirEntry`.
pub record Entry : Type 0 where
  pub name : String
  pub is_dir : Bool

pub record Os : Type 1 where
  pub Disk : Type 0
  pub read_file : FilePath → Disk → IoResult String
  pub write_file : FilePath → String → Effect Disk
  pub remove : FilePath → Disk → IoResult (Unit {0}) × Disk
  pub read_dir : FilePath → Disk → IoResult (List Entry)
  pub mkdir_all : FilePath → Effect Disk

-- What Go documents: a successful write is read back, a removed file does not exist, and a call
-- leaves the files at other paths alone. Of a failed write nothing is said at its own path.
pub record IsFaithful (os : Os) : Type 0 where
  pub read-write :
      (p : FilePath) (text : String) (d : os.Disk)
      → (os.write_file p text d).0 ≡ ok tt
      → os.read_file p (os.write_file p text d).1 ≡ done text
  pub read-write_ne :
      (q p : FilePath) (text : String) (d : os.Disk)
      → q ≢ p
      → os.read_file q (os.write_file p text d).1 ≡ os.read_file q d
  pub read-remove :
      (p : FilePath) (d : os.Disk)
      → ((e : String) → (os.remove p d).0 ≢ failed e)
      → os.read_file p (os.remove p d).1 ≡ not_exist
  pub read-remove_ne :
      (q p : FilePath) (d : os.Disk) → q ≢ p → os.read_file q (os.remove p d).1 ≡ os.read_file q d
  pub read-mkdir :
      (q p : FilePath) (d : os.Disk) → os.read_file q (os.mkdir_all p d).1 ≡ os.read_file q d
