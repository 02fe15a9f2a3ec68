-- ===== src/Object/Bits.antt =====
-- lib/bitmask.c and lib/object.c: masks of bits, the attributes that each type of object has, and the
-- lists of attributes.
use cray_pwrapi.Base.{
  ℕ, zero, suc, ◌+◌, ◌/◌, ◌%◌, ◌^◌, List, [], ◌∷◌, Bool, true, false, Option, none, some, ℤ, ◌==◌,
  if◌then◌else◌, get_elem?,
}
use cray_pwrapi.Types.{
  AttrName, attr_pstate, attr_cstate, attr_cstate_limit, attr_sstate, attr_current, attr_voltage,
  attr_power, attr_power_limit_min, attr_power_limit_max, attr_freq, attr_freq_req,
  attr_freq_limit_min, attr_freq_limit_max, attr_energy, attr_temp, attr_os_id, attr_throttled_time,
  attr_throttled_count, attr_gov, num_attr_names, attr_invalid, attr_not_specified, ret_success,
  ret_invalid, ret_no_attrib, ret_out_of_range, ret_warn_trunc,
}
use cray_pwrapi.Object.Tree.{
  ObjType, obj_node, obj_socket, obj_core, obj_power_plane, obj_mem, obj_ht, num_obj_types,
  obj_invalid, obj_not_specified,
}

-- `bitmask_t`
pub record Bitmask : Type 0 where
  pub used : ℕ
  pub bitblock : List ℕ

-- BITMASK_TEST; there is no block for a bit that is out of range.
unfoldable pub bitmask_test : Bitmask → ℕ → Bool
bitmask_test mask bit = elim (get_elem? mask.bitblock (bit / 64)) [
  | none ↦ false
  | some block ↦ (block / 2 ^ (bit % 64)) % 2 == 1
]

-- The loop of bitmask_num_set, over the next `n` bits.
unfoldable pub num_set_from : ℕ → ℕ → Bitmask → ℕ → ℕ
unfolding bitmask_test
num_set_from zero i mask num = num
num_set_from (suc n) i mask num =
    num_set_from n (i + 1) mask (if bitmask_test mask i then suc num else num)

unfoldable pub bitmask_num_set : Bitmask → ℕ
unfolding num_set_from
bitmask_num_set mask = num_set_from mask.used 0 mask 0

-- The number of an attribute in the range, or `none` outside of it.
abbrev pub attr_code : AttrName → Option ℕ
attr_code attr_pstate = some 0
attr_code attr_cstate = some 1
attr_code attr_cstate_limit = some 2
attr_code attr_sstate = some 3
attr_code attr_current = some 4
attr_code attr_voltage = some 5
attr_code attr_power = some 6
attr_code attr_power_limit_min = some 7
attr_code attr_power_limit_max = some 8
attr_code attr_freq = some 9
attr_code attr_freq_req = some 10
attr_code attr_freq_limit_min = some 11
attr_code attr_freq_limit_max = some 12
attr_code attr_energy = some 13
attr_code attr_temp = some 14
attr_code attr_os_id = some 15
attr_code attr_throttled_time = some 16
attr_code attr_throttled_count = some 17
attr_code attr_gov = some 18
attr_code num_attr_names = none
attr_code attr_invalid = none
attr_code attr_not_specified = none

-- DECLARE_BITMASK_AUTO for attributes, whose value is the or of masks of different bits.
abbrev bits : ℕ → Bitmask
bits value = record { used = 19; bitblock = value ∷ [] }

abbrev pub node_attr_bitmask : Bitmask
node_attr_bitmask = bits (2 ^ 6 + 2 ^ 8 + 2 ^ 13 + 2 ^ 15)

abbrev pub socket_attr_bitmask : Bitmask
socket_attr_bitmask = bits (2 ^ 6 + 2 ^ 8 + 2 ^ 13 + 2 ^ 14 + 2 ^ 15 + 2 ^ 16)

abbrev pub mem_attr_bitmask : Bitmask
mem_attr_bitmask = bits (2 ^ 6 + 2 ^ 8 + 2 ^ 13 + 2 ^ 15 + 2 ^ 16)

abbrev pub pplane_attr_bitmask : Bitmask
pplane_attr_bitmask = bits (2 ^ 6 + 2 ^ 13 + 2 ^ 15)

abbrev pub core_attr_bitmask : Bitmask
core_attr_bitmask = bits (2 ^ 14 + 2 ^ 15)

abbrev pub ht_attr_bitmask : Bitmask
ht_attr_bitmask = bits (2 ^ 2 + 2 ^ 9 + 2 ^ 10 + 2 ^ 11 + 2 ^ 12 + 2 ^ 15 + 2 ^ 18)

abbrev pub supported_attr_bitmask : Bitmask
supported_attr_bitmask = bits (
    2 ^ 6
    + 2 ^ 8
    + 2 ^ 2
    + 2 ^ 9
    + 2 ^ 10
    + 2 ^ 11
    + 2 ^ 12
    + 2 ^ 13
    + 2 ^ 14
    + 2 ^ 15
    + 2 ^ 16
    + 2 ^ 18)

-- The switches on the type of an object.
abbrev pub mask_of : ObjType → Option Bitmask
mask_of obj_node = some node_attr_bitmask
mask_of obj_socket = some socket_attr_bitmask
mask_of obj_core = some core_attr_bitmask
mask_of obj_power_plane = some pplane_attr_bitmask
mask_of obj_mem = some mem_attr_bitmask
mask_of obj_ht = some ht_attr_bitmask
mask_of _ = none

unfoldable pub validate_attr : ObjType → AttrName → ℤ
unfolding bitmask_test
validate_attr type attr = elim (attr_code attr) [
  | none ↦ ret_out_of_range
  | some code ↦ elim (mask_of type) [
    | none ↦ ret_invalid
    | some mask ↦ if bitmask_test mask code then ret_success else ret_no_attrib
  ]
]

-- The loop of get_attr_list over the next `n` bits, with room for `room` more: where it stops, and the
-- bits that it stores, for which `str_list` has the names.
unfoldable pub attr_list_from : ℕ → ℕ → ℕ → Bitmask → ℕ × List ℕ
unfolding bitmask_test
attr_list_from zero bit room mask = (bit, [])
attr_list_from (suc n) bit zero mask = (bit, [])
attr_list_from (suc n) bit (suc room) mask = elim (bitmask_test mask bit) [
  | true ↦ let (stop, stored) = attr_list_from n (bit + 1) room mask in (stop, bit ∷ stored)
  | false ↦ attr_list_from n (bit + 1) (suc room) mask
]

unfoldable pub get_attr_list : Bitmask → ℕ → ℤ × List ℕ
unfolding attr_list_from
get_attr_list mask len =
    let (bit, stored) = attr_list_from mask.used 0 len mask in
    (if bit == mask.used then ret_success else ret_warn_trunc, stored)

-- The mask that a caller's type means, or the code of the error.
abbrev pub requested : ObjType → ℤ × Option Bitmask
requested num_obj_types = (ret_out_of_range, none)
requested obj_invalid = (ret_success, some supported_attr_bitmask)
requested obj_not_specified = (ret_success, some supported_attr_bitmask)
requested type = elim (mask_of type) [
  | none ↦ (ret_no_attrib, none)
  | some mask ↦ (ret_success, some mask)
]

unfoldable pub craypwr_attr_get_count : ObjType → ℤ × Option ℕ
unfolding bitmask_num_set
craypwr_attr_get_count type =
    let (code, mask) = requested type in
    elim mask [ none ↦ (code, none) | some m ↦ (code, some (bitmask_num_set m)) ]

unfoldable pub craypwr_attr_get_list : ObjType → ℕ → ℤ × List ℕ
unfolding get_attr_list
craypwr_attr_get_list type len =
    let (code, mask) = requested type in
    elim mask [ none ↦ (code, []) | some m ↦ get_attr_list m len ]
