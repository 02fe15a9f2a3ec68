-- ===== src/Daemon/Files.antt =====
-- The control files as the C library shows them to daemon/pwrapi_worker.c: each call of fopen,
-- fscanf, fprintf, fflush and readdir may fail, and those that write give a new file system.
use cray_pwrapi.Base.{ℕ, ◌^◌, ◌<◌, ◌≡◌, ◌≢◌, List, Bool, true, Option, some}
use cray_pwrapi.Daemon.Request.{FilePath}

-- What readdir says of an entry.
pub record DirEntry : Type 0 where
  pub is_dir : Bool
  pub name : List ℕ

pub record Files : Type 1 where
  pub FS : Type 0
  pub fopen_read : FS → FilePath → Bool
  pub fscanf_ld : FS → FilePath → Option ℕ
  pub fscanf_lf : FS → FilePath → Option ℕ
  pub getline : FS → FilePath → Option (List ℕ)
  pub readdir : FS → FilePath → Option (List DirEntry)
  pub fopen_write : FS → FilePath → Option FS
  pub fprintf_ld : FS → FilePath → ℕ → FS × Bool
  pub fprintf_lf : FS → FilePath → ℕ → FS × Bool
  pub fprintf_s : FS → FilePath → List ℕ → FS × Bool
  pub fflush : FS → FilePath → FS × Bool
  pub fscanf_ld_lt : (fs : FS) (p : FilePath) (v : ℕ) → fscanf_ld fs p ≡ some v → v < 2 ^ 64
  -- What is written and flushed can be read back; other files and the directories keep theirs.
  pub written :
      (fs fs1 fs2 fs3 : FS) (p : FilePath) (v : ℕ)
      → v < 2 ^ 64
      → fopen_write fs p ≡ some fs1
      → fprintf_ld fs1 p v ≡ (fs2, true)
      → fflush fs2 p ≡ (fs3, true)
      → (fopen_read fs3 p ≡ true)
        × (fscanf_ld fs3 p ≡ some v)
        × ((q : FilePath) → readdir fs3 q ≡ readdir fs q)
        × ((q : FilePath) → q ≢ p → fopen_read fs3 q ≡ fopen_read fs q)
        × ((q : FilePath) → q ≢ p → fscanf_ld fs3 q ≡ fscanf_ld fs q)
