-- ===== src/Permissions/Files.antt =====
-- common/permissions.c: the functions on the three files.
use cray_pwrapi.Base.{
  ℕ, zero, suc, List, [], ◌∷◌, ◌++◌, Bool, not, Option, none, some, ℤ, pos, int_eq, ◌==◌,
  if◌then◌else◌, contains, length,
}
use cray_pwrapi.Permissions.Scan.{numbers, print_uint}

-- The files, by their bytes; `none` where there is no such file.
pub record Files : Type 0 where
  pub boot : Option (List ℕ)
  pub curr : Option (List ℕ)
  pub temp : Option (List ℕ)

-- Which calls the system permits: opening the files as the functions do (a missing file cannot be
-- opened to be read), removing the current file, and renaming the temporary one.
pub record Access : Type 0 where
  pub read_boot : Bool
  pub read_curr : Bool
  pub write_curr : Bool
  pub append_curr : Bool
  pub write_temp : Bool
  pub remove_curr : Bool
  pub rename_temp : Bool

abbrev pub opened : Bool → Option (List ℕ) → Option (List ℕ)
opened permitted none = none
opened permitted (some text) = if permitted then some text else none

-- fgets into an array of 32 bytes: the line, or the next 31 bytes of it.
unfoldable pub fgets : ℕ → List ℕ → List ℕ × List ℕ
fgets zero text = ([], text)
fgets (suc room) [] = ([], [])
fgets (suc room) (c ∷ cs) =
    let (line, rest) = fgets room cs in if c == b'\n' then (c ∷ [], cs) else (c ∷ line, rest)

-- What fputs writes of an array: the bytes before the first NUL.
unfoldable pub fputs : List ℕ → List ℕ
fputs [] = []
fputs (c ∷ cs) = let rest = fputs cs in if c == 0 then [] else c ∷ rest

-- The loop of file_copy, with fuel: what is written.
unfoldable pub copy_loop : ℕ → List ℕ → List ℕ
unfolding fgets fputs
copy_loop zero text = []
copy_loop (suc fuel) [] = []
copy_loop (suc fuel) (c ∷ cs) =
    let (line, rest) = fgets 31 (c ∷ cs) in fputs line ++ copy_loop fuel rest

-- Opening a file to append to it makes it.
abbrev pub appended : Option (List ℕ) → List ℕ → List ℕ
appended none line = line
appended (some text) line = text ++ line

-- The loop that writes the temporary file.
unfoldable pub without_uid : ℕ → List ℕ → List ℕ
unfolding print_uint
without_uid uid [] = []
without_uid uid (current ∷ rest) =
    let kept = without_uid uid rest in if uid == current then kept else print_uint current ++ kept

module _ (a : Access) where
  -- file_copy from the boot file to the current one.
  unfoldable pub file_copy : Files → ℤ × Files
  unfolding copy_loop
  file_copy f = elim (opened a.read_boot f.boot) [
    | none ↦ (pos 1, f)
    | some text ↦
        if a.write_curr
        then (pos 0, record f { curr = some (copy_loop (length text) text) })
        else (pos 2, f)
  ]

  -- file_search_uint in the current file.
  unfoldable pub file_search_uint : Files → ℕ → ℤ
  unfolding numbers
  file_search_uint f key = elim (opened a.read_curr f.curr) [
    | none ↦ pos 2
    | some text ↦ if contains (numbers text) key then pos 0 else pos 1
  ]

  unfoldable pub clear_permissions_file : Files → ℤ × Files
  clear_permissions_file f =
      if a.write_curr then (pos 0, record f { curr = some [] }) else (pos 1, f)

  unfoldable pub restore_permissions_file : Files → ℤ × Files
  unfolding file_copy
  restore_permissions_file f = file_copy f

  unfoldable pub check_permissions_file : Files → ℕ → ℤ
  unfolding file_search_uint
  check_permissions_file f uid = file_search_uint f uid

  unfoldable pub add_uid_permissions_file : Files → ℕ → ℤ × Files
  unfolding file_search_uint print_uint
  add_uid_permissions_file f uid =
      if int_eq (file_search_uint f uid) (pos 0)
      then (pos 0, f)
      else if a.append_curr
      then (pos 0, record f { curr = some (appended f.curr (print_uint uid)) })
      else (pos 1, f)

  -- The temporary file takes the place of the current one.
  unfoldable pub replace_curr : Files → ℤ × Files
  replace_curr f =
      if not a.remove_curr
      then (pos 1, f)
      else if not a.rename_temp
      then (pos 1, record f { curr = none })
      else (pos 0, record f { curr = f.temp; temp = none })

  unfoldable pub del_uid_permissions_file : Files → ℕ → ℤ × Files
  unfolding file_search_uint numbers without_uid replace_curr
  del_uid_permissions_file f uid =
      if not (int_eq (file_search_uint f uid) (pos 0))
      then (pos 0, f)
      else elim (opened a.read_curr f.curr) [
        | none ↦ (pos 1, f)
        | some text ↦
            if a.write_temp
            then replace_curr (record f { temp = some (without_uid uid (numbers text)) })
            else (pos 1, f)
      ]
