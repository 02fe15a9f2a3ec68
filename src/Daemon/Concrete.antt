-- ===== src/Daemon/Concrete.antt =====
-- Control files with one number each, and numbers for doubles: an environment of the daemon that
-- runs.
use cray_pwrapi.Base.{
  ℕ, ◌%◌, ◌^◌, ◌<◌, ◌≡◌, ◌≢◌, refl, sym, ◌∙◌, ap, List, Bool, true, false, Option, none, some,
  arith, ◌==◌, ltb, is_some, codes, ℕ_discrete,
}
use mathlib.Core.Logic.{ite, if_pos, if_neg}
use cray_pwrapi.Glib.Concrete.ListTable.{list_table}
use cray_pwrapi.Glib.Concrete.PlainList.{plain_list}
use cray_pwrapi.Daemon.Request.{FilePath, Doubles, SetInfo}
use cray_pwrapi.Daemon.Order.{DoubleOrder}
use cray_pwrapi.Daemon.Files.{DirEntry, Files}
use cray_pwrapi.Daemon.State.{Env}

abbrev pub Disk : Type 0
Disk = FilePath → Option ℕ

unfoldable pub path_discrete : Discrete FilePath
path_discrete = hlevel ℕ_discrete

unfoldable pub request_discrete : Discrete SetInfo
request_discrete = hlevel ℕ_discrete

abbrev pub wrapped : Option ℕ → Option ℕ
wrapped none = none
wrapped (some v) = some (v % 2 ^ 64)

abbrev pub put : Disk → FilePath → ℕ → Disk
put fs p v q = ite (path_discrete p q) (some v) (fs q)

put_self : (fs : Disk) (p : FilePath) (v : ℕ) → put fs p v p ≡ some v
put_self fs p v = if_pos (path_discrete p p) refl (some v) (fs p)

put_ne : (fs : Disk) (p q : FilePath) (v : ℕ) → q ≢ p → put fs p v q ≡ fs q
put_ne fs p q v ne = if_neg (path_discrete p q) (λ e. ne (sym e)) (some v) (fs q)

pub wrapped_lt : (o : Option ℕ) (v : ℕ) → wrapped o ≡ some v → v < 2 ^ 64
wrapped_lt none v h = cc
wrapped_lt (some w) v h = ground arith

wrapped_small : (v : ℕ) → v < 2 ^ 64 → wrapped (some v) ≡ some v
wrapped_small v h = ground arith

after_write :
    (fs fs1 fs2 fs3 : Disk) (p : FilePath) (v : ℕ)
    → some fs ≡ some fs1
    → ◌≡◌ {A = Disk × Bool} (put fs1 p v, true) (fs2, true)
    → ◌≡◌ {A = Disk × Bool} (fs2, true) (fs3, true)
    → put fs p v ≡ fs3
after_write fs fs1 fs2 fs3 p v h1 h2 h3 = cc

pub disk_written :
    (fs fs1 fs2 fs3 : Disk) (p : FilePath) (v : ℕ)
    → v < 2 ^ 64
    → some fs ≡ some fs1
    → ◌≡◌ {A = Disk × Bool} (put fs1 p v, true) (fs2, true)
    → ◌≡◌ {A = Disk × Bool} (fs2, true) (fs3, true)
    → (is_some (fs3 p) ≡ true)
      × (wrapped (fs3 p) ≡ some v)
      × ((q : FilePath) → ◌≡◌ {A = Option (List DirEntry)} none none)
      × ((q : FilePath) → q ≢ p → is_some (fs3 q) ≡ is_some (fs q))
      × ((q : FilePath) → q ≢ p → wrapped (fs3 q) ≡ wrapped (fs q))
disk_written fs fs1 fs2 fs3 p v lt h1 h2 h3 = rw (← after_write fs fs1 fs2 fs3 p v h1 h2 h3) (
  ap is_some (put_self fs p v),
  ap wrapped (put_self fs p v) ∙ wrapped_small v lt,
  (λ q. refl),
  (λ q ne. ap is_some (put_ne fs p q v ne)),
  (λ q ne. ap wrapped (put_ne fs p q v ne)),
)

abbrev pub disk_files : Files
disk_files = record {
  FS = Disk;
  fopen_read = λ fs p. is_some (fs p);
  fscanf_ld = λ fs p. wrapped (fs p);
  fscanf_lf = λ fs p. fs p;
  getline = λ fs p. some (codes "schedutil");
  readdir = λ fs p. none;
  fopen_write = λ fs p. some fs;
  fprintf_ld = λ fs p v. (put fs p v, true);
  fprintf_lf = λ fs p v. (put fs p v, true);
  fprintf_s = λ fs p s. (fs, true);
  fflush = λ fs p. (fs, true);
  fscanf_ld_lt = λ fs p v. wrapped_lt (fs p) v;
  written = disk_written;
}

abbrev pub number_doubles : Doubles
number_doubles = record {
  double_eq = λ v w. v % 2 ^ 64 == w % 2 ^ 64;
  double_lt = λ v w. ltb (v % 2 ^ 64) (w % 2 ^ 64);
}

abbrev pub number_order : DoubleOrder number_doubles
number_order = record {
  is_nan = λ v. false;
  double_rank = λ v. v % 2 ^ 64;
  double_rank_lt = λ v. omega arith;
  double_eq_lem = λ v w p q. refl;
  double_lt_lem = λ v w p q. refl;
}

abbrev pub disk_env : Env
disk_env = record {
  lists = plain_list request_discrete;
  changes = list_table path_discrete;
  sets = list_table path_discrete;
  fds = list_table ℕ_discrete;
  doubles = number_doubles;
  files = disk_files;
}
