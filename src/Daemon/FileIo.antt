-- ===== src/Daemon/FileIo.antt =====
-- daemon/pwrapi_worker.c: reading and writing one control file, the C-state limit that is spread
-- over the files state<i>/disable, and the choice between them by attribute.
use cray_pwrapi.Base.{
  ℕ, zero, suc, ◌+◌, ◌-◌, List, [], ◌∷◌, ◌++◌, Bool, true, false, ◌&&◌, Option, none, some, ltb,
  leb, ◌==◌, if◌then◌else◌, codes, starts_with, decimal,
}
use cray_pwrapi.Types.{
  AttrName, attr_cstate_limit, attr_gov, AttrDataType, data_double, data_uint64,
}
use cray_pwrapi.Daemon.Request.{FilePath, SetInfo}
use cray_pwrapi.Daemon.Files.{Files, DirEntry}
use cray_pwrapi.Daemon.Gov.{pwr_string_to_gov, pwr_gov_to_string}

-- getline keeps the newline at the end, which the code cuts off.
unfoldable pub drop_newline : List ℕ → List ℕ
drop_newline [] = []
drop_newline (c ∷ []) = if c == 10 then [] else c ∷ []
drop_newline (c ∷ d ∷ rest) = c ∷ drop_newline (d ∷ rest)

-- "%s/state%d/disable"
unfoldable pub state_path : FilePath → ℕ → FilePath
unfolding decimal
state_path path i = path ++ codes "/state" ++ decimal i ++ codes "/disable"

unfoldable pub count_states : List DirEntry → ℕ
count_states [] = 0
count_states (e ∷ es) =
    (if e.is_dir && starts_with e.name (codes "state") then 1 else 0) + count_states es

module _ (f : Files) where
  open f use {
    FS, fopen_read, fscanf_ld, fscanf_lf, getline, readdir, fopen_write, fprintf_ld, fprintf_lf,
    fprintf_s, fflush,
  }

  -- `none` is a failure, where the code returns 1.
  unfoldable pub file_read_uint64 : FS → FilePath → Option ℕ
  file_read_uint64 fs p = if fopen_read fs p then fscanf_ld fs p else none

  unfoldable pub file_read_double : FS → FilePath → Option ℕ
  file_read_double fs p = if fopen_read fs p then fscanf_lf fs p else none

  unfoldable pub file_read_string : FS → FilePath → Option (List ℕ)
  unfolding drop_newline
  file_read_string fs p =
      if fopen_read fs p
      then elim (getline fs p) [ none ↦ none | some str ↦ some (drop_newline str) ]
      else none

  -- A write returns the file system and whether it succeeded. `fclose` follows on every path.
  unfoldable pub flushed : FilePath → FS × Bool → FS × Bool
  flushed p (fs, true) = fflush fs p
  flushed p (fs, false) = (fs, false)

  unfoldable pub file_write_uint64 : FS → FilePath → ℕ → FS × Bool
  unfolding flushed
  file_write_uint64 fs p v = elim (fopen_write fs p) [
    | none ↦ (fs, false)
    | some fs1 ↦ flushed p (fprintf_ld fs1 p v)
  ]

  unfoldable pub file_write_double : FS → FilePath → ℕ → FS × Bool
  unfolding flushed
  file_write_double fs p v = elim (fopen_write fs p) [
    | none ↦ (fs, false)
    | some fs1 ↦ flushed p (fprintf_lf fs1 p v)
  ]

  unfoldable pub file_write_string : FS → FilePath → List ℕ → FS × Bool
  unfolding flushed
  file_write_string fs p v = elim (fopen_write fs p) [
    | none ↦ (fs, false)
    | some fs1 ↦ flushed p (fprintf_s fs1 p v)
  ]

  -- 0 where the directory cannot be opened.
  unfoldable pub get_cstates_count : FS → FilePath → ℕ
  unfolding count_states
  get_cstates_count fs p = elim (readdir fs p) [ none ↦ 0 | some es ↦ count_states es ]

  -- The loop of read_cstate_limit from `i` on, over the states that are left: the value of `i`
  -- where it stops, or a failure to read.
  unfoldable pub first_disabled : FS → FilePath → ℕ → ℕ → Option ℕ
  unfolding file_read_uint64 state_path
  first_disabled fs p zero i = some i
  first_disabled fs p (suc left) i = elim (file_read_uint64 fs (state_path p i)) [
    | none ↦ none
    | some disable_value ↦
        let rest = first_disabled fs p left (i + 1) in if ltb 0 disable_value then some i else rest
  ]

  unfoldable pub read_cstate_limit : FS → FilePath → Option ℕ
  unfolding get_cstates_count first_disabled
  read_cstate_limit fs p = elim (first_disabled fs p (get_cstates_count fs p - 1) 1) [
    | none ↦ none
    | some i ↦ some (i - 1)
  ]

  -- The loop of write_cstate_limit.
  unfoldable pub write_states : FS → FilePath → ℕ → ℕ → ℕ → FS × Bool
  unfolding file_write_uint64 state_path
  write_states fs p limit zero i = (fs, true)
  write_states fs p limit (suc left) i =
      let (fs', ok) = file_write_uint64 fs (state_path p i) (if ltb limit i then 1 else 0) in
      elim ok [ true ↦ write_states fs' p limit left (i + 1) | false ↦ (fs', false) ]

  unfoldable pub write_cstate_limit : FS → FilePath → ℕ → FS × Bool
  unfolding get_cstates_count write_states
  write_cstate_limit fs p limit =
      let n = get_cstates_count fs p in
      if leb n limit then (fs, false) else write_states fs p limit (n - 1) 1

  unfoldable pub read_governor : FS → FilePath → Option ℕ
  unfolding file_read_string pwr_string_to_gov
  read_governor fs p = elim (file_read_string fs p) [
    | none ↦ none
    | some buf ↦ some (pwr_string_to_gov buf)
  ]

  unfoldable pub write_governor : FS → FilePath → ℕ → FS × Bool
  unfolding file_write_string pwr_gov_to_string
  write_governor fs p value = file_write_string fs p (pwr_gov_to_string value)

  unfoldable pub read_value_by_type : FS → FilePath → AttrDataType → Option ℕ
  unfolding file_read_uint64 file_read_double
  read_value_by_type fs p data_uint64 = file_read_uint64 fs p
  read_value_by_type fs p data_double = file_read_double fs p
  read_value_by_type fs p _ = none

  unfoldable pub write_value_by_type : FS → FilePath → AttrDataType → ℕ → FS × Bool
  unfolding file_write_uint64 file_write_double
  write_value_by_type fs p data_uint64 v = file_write_uint64 fs p v
  write_value_by_type fs p data_double v = file_write_double fs p v
  write_value_by_type fs p _ v = (fs, false)

  unfoldable pub read_by : AttrName → FS → FilePath → AttrDataType → Option ℕ
  unfolding read_cstate_limit read_governor read_value_by_type
  read_by attr_cstate_limit fs p t = read_cstate_limit fs p
  read_by attr_gov fs p t = read_governor fs p
  read_by _ fs p t = read_value_by_type fs p t

  -- The value that the control file of a request holds.
  unfoldable pub read_attr_value : FS → SetInfo → Option ℕ
  unfolding read_by
  read_attr_value fs s = read_by s.attribute fs s.path s.data_type

  unfoldable pub write_by : AttrName → FS → FilePath → AttrDataType → ℕ → FS × Bool
  unfolding write_cstate_limit write_governor write_value_by_type
  write_by attr_cstate_limit fs p t v = write_cstate_limit fs p v
  write_by attr_gov fs p t v = write_governor fs p v
  write_by _ fs p t v = write_value_by_type fs p t v

  unfoldable pub write_attr_value : FS → SetInfo → FS × Bool
  unfolding write_by
  write_attr_value fs s = write_by s.attribute fs s.path s.data_type s.value
