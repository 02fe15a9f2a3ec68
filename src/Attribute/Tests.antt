-- ===== src/Attribute/Tests.antt =====
-- Runs of the functions on attributes: one context with a node, a socket, a core, a group of the
-- latter two, and a status.
use cray_pwrapi.Base.{
  ℕ, suc, ◌+◌, ◌*◌, ◌^◌, ◌≡◌, refl, [], ◌∷◌, true, false, Option, none, some, ℤ, pos, negsuc, ◌==◌,
  if◌then◌else◌, ret, update, length, ℕ_discrete,
}
use cray_pwrapi.Types.{ret_success, ret_failure, AttrName, attr_temp, attr_gov, attr_energy}
use cray_pwrapi.Glib.HashTable.{HashTable}
use cray_pwrapi.Glib.Concrete.ListSequence.{list_sequence}
use cray_pwrapi.Glib.Concrete.ListTable.{list_table}
use cray_pwrapi.Opaque.Key.{opaque_get_context_key, opaque_get_data_key}
use cray_pwrapi.Opaque.Map.{
  opaque_invalid, opaque_group, opaque_context, opaque_object, opaque_status, OpaqueRef,
  opaque_map_lookup, opaque_map_lookup_type,
}
use cray_pwrapi.Group.Ops.{live, Group}
use cray_pwrapi.Group.References.{IsKnown}
use cray_pwrapi.Object.Tree.{object, obj_core}
use cray_pwrapi.Object.Sample.{counter, a_node, a_socket, threads}
use cray_pwrapi.Attribute.Status.{Library, AccessError, find_status_by_opaque, check_status_context}
use cray_pwrapi.Attribute.Single.{
  Memory, usable_status, pwr_obj_attr_get_values, pwr_obj_attr_set_values,
}
use cray_pwrapi.Attribute.Group.{pwr_grp_attr_get_value}
use cray_pwrapi.Attribute.Reports.{readings, errors_of}
use cray_pwrapi.Attribute.Values.{IsReported, get_values-IsReported}
use cray_pwrapi.Attribute.OverGroup.{reference_at, grp_get_value-IsReported}
use cray_pwrapi.Attribute.Popped.{pop_times, replies_of, get_values_popped}
use cray_pwrapi.Attribute.SetIndex.{errors_at_zero, all_set, set_codes, Leaves, set_values-Leaves}

abbrev key_map : HashTable ℕ ℕ
key_map = list_table ℕ_discrete

abbrev ref : ℕ → OpaqueRef
ref a =
    if a == 100
    then record { type_of = opaque_context; key = 3 }
    else if a == 10
    then record { type_of = opaque_object; key = 4 }
    else if a == 20
    then record { type_of = opaque_object; key = 5 }
    else if a == 30
    then record { type_of = opaque_object; key = 6 }
    else if a == 40
    then record { type_of = opaque_group; key = 7 }
    else if a == 50
    then record { type_of = opaque_status; key = 8 }
    else record { type_of = opaque_invalid; key = 0 }

abbrev pair : Group list_sequence
pair = record { context_key = 3; list = 20 ∷ 30 ∷ []; stat_list = live [] }

abbrev an_error : AccessError
an_error = record { obj = some 9; name = attr_gov; index = 4; error = negsuc 1 }

abbrev library : Library list_sequence key_map counter
library = record {
  world = record {
    map = record {
      rand = [];
      table = (3, 100) ∷ (4, 10) ∷ (5, 20) ∷ (6, 30) ∷ (7, 40) ∷ (8, 50) ∷ [];
      refs = ref;
    };
    groups = update (λ a. none) 40 (some pair);
    group_list = λ ctx. 40 ∷ [];
    stats = λ s. record { thread = false; obj = 0; grp = 0 };
    next = 60;
  };
  objects =
      λ a. if a == 10 then a_node else if a == 20 then a_socket else object obj_core 30 0 threads;
  ipc = λ ctx. 1;
  status_list = λ ctx. 50 ∷ [];
  queues = update (λ a. none) 50 (some (an_error ∷ []));
  machine = 0;
}

abbrev reference : ℕ → ℕ
reference key = 3 * 2 ^ 32 + key

-- Energy, temperature, temperature and so on.
abbrev wanted : ℕ → AttrName
wanted i = if i == 0 then attr_energy else attr_temp

abbrev blank : Memory
blank i = none

socket_status :
    usable_status list_sequence key_map counter library (reference 8) (reference 5) ≡ true
unfolding usable_status find_status_by_opaque check_status_context opaque_map_lookup_type
    opaque_map_lookup opaque_get_context_key opaque_get_data_key ℕ_discrete
socket_status = refl

found_status : find_status_by_opaque list_sequence key_map counter library (reference 8) ≡ some 50
unfolding find_status_by_opaque opaque_map_lookup_type opaque_map_lookup opaque_get_data_key
    ℕ_discrete
found_status = refl

get_values-IsReported_example :
    (code : ℤ) × (l' : Library list_sequence key_map counter) × (values' : Memory) × (ts' : Option
      Memory)
    × (pwr_obj_attr_get_values list_sequence key_map counter library
          (reference 5)
          (pos 3)
          (some wanted)
          (some blank)
          none
          (reference 8)
        ≡ (code, l', some values', ts'))
    × IsReported list_sequence key_map counter library
        (find_status_by_opaque list_sequence key_map counter library (reference 8))
        (λ k. reference 5)
        wanted
        blank
        none
        (readings list_sequence key_map counter library (λ k. reference 5) wanted 3 0 0)
        code
        l'
        values'
        ts'
get_values-IsReported_example =
    get_values-IsReported list_sequence key_map counter library (reference 5) 3 wanted blank none
      (reference 8) (λ s. refl) socket_status

group_status :
    usable_status list_sequence key_map counter library (reference 8) (reference 7) ≡ true
unfolding usable_status find_status_by_opaque check_status_context opaque_map_lookup_type
    opaque_map_lookup opaque_get_context_key opaque_get_data_key ℕ_discrete
group_status = refl

pair-IsKnown : IsKnown list_sequence key_map library.world (reference 7) 40 pair
unfolding opaque_map_lookup_type opaque_map_lookup opaque_get_context_key opaque_get_data_key
    ℕ_discrete
pair-IsKnown = record { finds = refl; here = refl; same_context = refl; keeps_key = refl }

grp_get_value-IsReported_example :
    (code : ℤ) × (l' : Library list_sequence key_map counter) × (values' : Memory) × (ts' : Option
      Memory)
    × (pwr_grp_attr_get_value list_sequence key_map counter library
          (reference 7)
          attr_temp
          (some blank)
          (some blank)
          (reference 8)
        ≡ ret (code, l', some values', ts'))
    × IsReported list_sequence key_map counter library
        (find_status_by_opaque list_sequence key_map counter library (reference 8))
        (reference_at list_sequence key_map library.world (reference 7) (20 ∷ 30 ∷ []))
        (λ k. attr_temp)
        blank
        (some blank)
        (readings list_sequence key_map counter library
          (reference_at list_sequence key_map library.world (reference 7) (20 ∷ 30 ∷ []))
          (λ k. attr_temp)
          2
          0
          0)
        code
        l'
        values'
        ts'
grp_get_value-IsReported_example =
    grp_get_value-IsReported list_sequence key_map counter library (reference 7) 40 pair attr_temp
      blank (some blank) (reference 8) (λ s. refl) group_status pair-IsKnown

get_values_popped_example :
    pop_times list_sequence key_map counter
      (suc (
        length (
          errors_of
            (λ k. reference 5)
            wanted
            0
            (readings list_sequence key_map counter library (λ k. reference 5) wanted 3 0 0))))
      (pwr_obj_attr_get_values list_sequence key_map counter library
        (reference 5)
        (pos 3)
        (some wanted)
        (some blank)
        none
        (reference 8)).1
      (reference 8)
    ≡ replies_of (
        errors_of
          (λ k. reference 5)
          wanted
          0
          (readings list_sequence key_map counter library (λ k. reference 5) wanted 3 0 0))
get_values_popped_example =
    get_values_popped list_sequence key_map counter library (reference 5) 3 wanted blank none
      (reference 8) 50 (an_error ∷ []) (λ s. refl) socket_status found_status refl

set_values-Leaves_example :
    Leaves list_sequence key_map counter 50
      (if all_set
          (set_codes list_sequence key_map counter library (reference 5) wanted (λ i. 9) 3 0 0)
        then ret_success
        else ret_failure)
      (errors_at_zero
        (reference 5)
        wanted
        0
        (set_codes list_sequence key_map counter library (reference 5) wanted (λ i. 9) 3 0 0))
      (pwr_obj_attr_set_values list_sequence key_map counter library
        (reference 5)
        (pos 3)
        (some wanted)
        (some (λ i. 9))
        (reference 8))
set_values-Leaves_example =
    set_values-Leaves list_sequence key_map counter library (reference 5) 3 wanted (λ i. 9)
      (reference 8) 50 (an_error ∷ []) (λ s. refl) socket_status found_status refl
