-- ===== src/Object/MetaTests.antt =====
-- Runs of the calls for metadata and names, on a node and a socket.
use cray_pwrapi.Base.{
  ℕ, suc, ◌+◌, ◌*◌, ◌^◌, ◌≡◌, refl, List, [], ◌∷◌, true, false, none, some, pos, ◌==◌,
  if◌then◌else◌, ◌<◌, ◌≤◌, length, ℕ_discrete, inr, arith,
}
use cray_pwrapi.Types.{
  attr_gov, attr_throttled_time, md_name_len, md_name, md_desc_len, md_desc, md_max_len,
  ret_success, ret_warn_trunc,
}
use cray_pwrapi.Glib.HashTable.{HashTable}
use cray_pwrapi.Glib.Concrete.ListTable.{list_table}
use cray_pwrapi.Opaque.Key.{opaque_get_context_key, opaque_get_data_key}
use cray_pwrapi.Opaque.Map.{
  OpaqueMap, opaque_invalid, opaque_context, opaque_object, opaque_map_lookup,
  opaque_map_lookup_type,
}
use cray_pwrapi.Object.Tree.{Obj, obj_node, obj_socket, obj_invalid}
use cray_pwrapi.Object.Sample.{a_node, a_socket}
use cray_pwrapi.Object.Names.{attr_name}
use cray_pwrapi.Object.Bits.{
  bitmask_test, bitmask_num_set, num_set_from, attr_list_from, node_attr_bitmask, validate_attr,
  get_attr_list, craypwr_attr_get_count, craypwr_attr_get_list,
}
use cray_pwrapi.Object.Meta.{number, text, MetaOps, MetaTables, answers}
use cray_pwrapi.Object.MetaApi.{
  find_object, pwr_obj_attr_get_meta, craypwr_attr_get_name, craypwr_attr_get_enum,
}
use cray_pwrapi.Object.Lengths.{Fits, get_meta-Fits, max_len_exceeded}
use cray_pwrapi.Object.Listed.{set_bits, counted_list_truncated}
use cray_pwrapi.Object.Named.{get_enum-get_name}

abbrev counts : MetaOps ℕ
counts = record {
  get_meta = λ self attr meta calls. record {
    code = pos 0;
    value = some (number calls);
    machine = suc calls;
  };
  set_meta = λ self ipc attr meta value calls. (pos 0, suc calls);
  get_meta_at_index = λ self attr index value value_str calls. (pos 0, none, none, suc calls);
}

abbrev tables : MetaTables ℕ
tables = record {
  node = counts;
  socket = counts;
  core = counts;
  pplane = counts;
  mem = counts;
  ht = counts;
}

abbrev key_map : HashTable ℕ ℕ
key_map = list_table ℕ_discrete

abbrev opaque : OpaqueMap key_map
opaque = record {
  rand = [];
  table = (3, 100) ∷ (4, 10) ∷ (5, 20) ∷ [];
  refs = λ a.
      if a == 100
      then record { type_of = opaque_context; key = 3 }
      else if a == 10
      then record { type_of = opaque_object; key = 4 }
      else if a == 20
      then record { type_of = opaque_object; key = 5 }
      else record { type_of = opaque_invalid; key = 0 };
}

abbrev objects : ℕ → Obj
objects a = if a == 10 then a_node else a_socket

abbrev reference : ℕ → ℕ
reference key = 3 * 2 ^ 32 + key

socket_found : find_object key_map opaque objects (λ c. 0) (reference 5) ≡ some (0, a_socket)
unfolding find_object opaque_map_lookup_type opaque_map_lookup opaque_get_context_key
    opaque_get_data_key ℕ_discrete
socket_found = refl

throttled_time_valid : validate_attr obj_socket attr_throttled_time ≡ ret_success
unfolding validate_attr bitmask_test
throttled_time_valid = refl

all_counted : craypwr_attr_get_count obj_invalid ≡ (ret_success, some 12)
unfolding craypwr_attr_get_count bitmask_num_set num_set_from bitmask_test
all_counted = refl

node_listed : craypwr_attr_get_list obj_node 4 ≡ (ret_warn_trunc, 6 ∷ 8 ∷ 13 ∷ 15 ∷ [])
unfolding craypwr_attr_get_list get_attr_list attr_list_from bitmask_test
node_listed = refl

get_meta-Fits_example :
    Fits tables
      (pwr_obj_attr_get_meta key_map tables opaque objects (reference 5) attr_throttled_time)
      md_name_len
      md_name
      7
    × Fits tables
        (pwr_obj_attr_get_meta key_map tables opaque objects (reference 5) attr_throttled_time)
        md_desc_len
        md_desc
        7
get_meta-Fits_example =
    get_meta-Fits tables key_map opaque objects (reference 5) 0 a_socket attr_throttled_time 7
      socket_found (inr throttled_time_valid)

max_len_exceeded_example :
    (pwr_obj_attr_get_meta key_map tables opaque objects
        (reference 5)
        attr_throttled_time
        md_max_len
        7
      ≡ answers tables (number 64) 7)
    × ((txt : List ℕ) × ((pwr_obj_attr_get_meta key_map tables opaque objects
              (reference 5)
              attr_throttled_time
              md_desc
              7
            ≡ answers tables (text txt) 7)
          × (64 < length txt)))
max_len_exceeded_example =
    max_len_exceeded tables key_map opaque objects (reference 5) 0 a_socket attr_throttled_time 7
      socket_found (inr throttled_time_valid) throttled_time_valid

no_governor : bitmask_test node_attr_bitmask 18 ≡ false
unfolding bitmask_test
no_governor = refl

counted_list_truncated_example :
    get_attr_list node_attr_bitmask (bitmask_num_set node_attr_bitmask)
    ≡ (ret_warn_trunc, set_bits 19 0 node_attr_bitmask)
counted_list_truncated_example = counted_list_truncated node_attr_bitmask 18 refl no_governor

gov_fits : length (attr_name attr_gov) ≤ 30
unfolding attr_name
gov_fits = omega arith

get_enum-get_name_example :
    (name : List ℕ) × ((craypwr_attr_get_name attr_gov true 31 ≡ (ret_success, some name))
      × (craypwr_attr_get_enum name ≡ attr_gov))
get_enum-get_name_example = get_enum-get_name attr_gov 18 30 refl gov_fits
