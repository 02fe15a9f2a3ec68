-- ===== src/Permissions/Tests.antt =====
-- Runs of the functions on the file of users.
use cray_pwrapi.Base.{◌≡◌, refl, [], ◌∷◌, ◌++◌, true, some, none, pos, arith, codes}
use cray_pwrapi.Permissions.Scan.{
  numbers, scan_all, fscanf_uint, read_number, read_signed, print_uint,
}
use cray_pwrapi.Permissions.Files.{
  Files, Access, add_uid_permissions_file, del_uid_permissions_file, restore_permissions_file,
}
use cray_pwrapi.Permissions.Printed.{print_all}
use cray_pwrapi.Permissions.Users.{Holds, Changes, add_del-Changes}
use cray_pwrapi.Permissions.Copy.{restore-copies}

abbrev open_access : Access
open_access = record {
  read_boot = true;
  read_curr = true;
  write_curr = true;
  append_curr = true;
  write_temp = true;
  remove_curr = true;
  rename_temp = true;
}

abbrev two_users : Files
two_users = record {
  boot = some (codes "1000 2000");
  curr = some (print_all (1000 ∷ 20 ∷ []));
  temp = none;
}

-- Where the last line has no end, the number that is added joins it.
joined_numbers : numbers (codes "1000 2000" ++ print_uint 30) ≡ 1000 ∷ 200030 ∷ []
unfolding numbers scan_all fscanf_uint read_number read_signed print_uint
joined_numbers = refl

numbers_with_signs : numbers (codes "+7\n -1 x 3") ≡ 7 ∷ 4294967295 ∷ []
unfolding numbers scan_all fscanf_uint read_number read_signed
numbers_with_signs = refl

two_users-Holds : Holds two_users (1000 ∷ 20 ∷ [])
two_users-Holds = record { printed = refl; small = (omega arith, (omega arith, tt)) }

add_del-Changes_example :
    Changes open_access refl two_users 20
      (pos 0)
      (add_uid_permissions_file open_access two_users 20)
    × Changes open_access refl two_users 20
        (pos 1)
        (del_uid_permissions_file open_access two_users 20)
add_del-Changes_example =
    add_del-Changes open_access refl two_users (1000 ∷ 20 ∷ []) 20 two_users-Holds (omega arith)
      refl refl refl refl

restore-copies_example :
    restore_permissions_file open_access two_users
    ≡ (pos 0, record two_users { curr = some (codes "1000 2000") })
restore-copies_example =
    restore-copies open_access two_users (codes "1000 2000") refl refl refl refl
