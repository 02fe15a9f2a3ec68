-- ===== src/Daemon/Gov.antt =====
-- common/gov.c: governors and their names.
use cray_pwrapi.Base.{ℕ, ◌-◌, ◌^◌, ◌%◌, List, codes, bytes_eq, ◌==◌, if◌then◌else◌}

-- PWR_GOV_INVALID is -1, which becomes 2 ^ 64 - 1 in the `uint64_t` that holds it.
abbrev pub gov_invalid : ℕ
gov_invalid = 2 ^ 64 - 1

unfoldable pub pwr_string_to_gov : List ℕ → ℕ
pwr_string_to_gov str =
    if bytes_eq str (codes "ondemand")
    then 0
    else if bytes_eq str (codes "performance")
    then 1
    else if bytes_eq str (codes "conservative")
    then 2
    else if bytes_eq str (codes "powersave")
    then 3
    else if bytes_eq str (codes "userspace")
    then 4
    else gov_invalid

-- The argument is converted to the 32 bits of the enumeration.
unfoldable pub pwr_gov_to_string : ℕ → List ℕ
pwr_gov_to_string value =
    let gov = value % 2 ^ 32 in
    if gov == 0
    then codes "ondemand"
    else if gov == 1
    then codes "performance"
    else if gov == 2
    then codes "conservative"
    else if gov == 3
    then codes "powersave"
    else if gov == 4
    then codes "userspace"
    else codes "INVALID"
