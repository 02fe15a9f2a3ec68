-- ===== src/Group/ApiTests.antt =====
-- Runs of the functions PWR_Grp*: one context with two groups and an object.
use cray_pwrapi.Base.{
  ℕ, ◌+◌, ◌*◌, ◌^◌, ◌≡◌, refl, [], ◌∷◌, false, ◌||◌, ◌&&◌, not, xor, none, some, pos, contains,
  ◌==◌, arith, ret, update, inl, inr, ℕ_discrete,
}
use cray_pwrapi.Types.{ret_success, ret_failure}
use cray_pwrapi.Glib.HashTable.{HashTable}
use cray_pwrapi.Glib.Concrete.ListSequence.{list_sequence}
use cray_pwrapi.Glib.Concrete.ListTable.{list_table}
use cray_pwrapi.Opaque.Key.{opaque_get_context_key, opaque_get_data_key}
use cray_pwrapi.Opaque.Map.{
  opaque_invalid, opaque_group, opaque_context, opaque_object, OpaqueRef, opaque_map_lookup,
  opaque_map_lookup_type,
}
use cray_pwrapi.Group.Sorted.{Ascending}
use cray_pwrapi.Group.Ops.{live, Group}
use cray_pwrapi.Group.Api.{World, pwr_grp_create, pwr_grp_destroy}
use cray_pwrapi.Group.Calls.{
  pwr_grp_add_obj, pwr_grp_remove_obj, pwr_grp_get_num_objs, pwr_grp_duplicate, pwr_grp_union,
  pwr_grp_intersection, pwr_grp_difference, pwr_grp_sym_difference,
}
use cray_pwrapi.Group.References.{IsKnown, IsContext, HasRoom}
use cray_pwrapi.Group.Created.{fresh, create_empty}
use cray_pwrapi.Group.Combined.{HasOperands, Combines, set_operations-Combines}
use cray_pwrapi.Group.Objects.{Edits, add_remove_obj-Edits}
use cray_pwrapi.Group.Destroyed.{destroyed_refused}

abbrev key_map : HashTable ℕ ℕ
key_map = list_table ℕ_discrete

abbrev ref : ℕ → OpaqueRef
ref =
    update
      (update
        (update
          (update (λ a. record { type_of = opaque_invalid; key = 0 }) 100
            (record { type_of = opaque_context; key = 9 }))
          1000 (record { type_of = opaque_group; key = 5 }))
        2000 (record { type_of = opaque_group; key = 6 }))
      3000 (record { type_of = opaque_object; key = 7 })

abbrev odd_group : Group list_sequence
odd_group = record { context_key = 9; list = 1 ∷ 3 ∷ 5 ∷ []; stat_list = live [] }

abbrev three_group : Group list_sequence
three_group = record { context_key = 9; list = 3 ∷ 6 ∷ []; stat_list = live [] }

abbrev world : World list_sequence key_map
world = record {
  map = record {
    rand = 5 ∷ 8 ∷ [];
    table = (9, 100) ∷ (5, 1000) ∷ (6, 2000) ∷ (7, 3000) ∷ [];
    refs = ref;
  };
  groups = update (update (λ a. none) 1000 (some odd_group)) 2000 (some three_group);
  group_list = λ ctx. 2000 ∷ 1000 ∷ [];
  stats = λ s. record { thread = false; obj = 0; grp = 0 };
  next = 4000;
}

abbrev reference : ℕ → ℕ
reference key = 9 * 2 ^ 32 + key

odd-IsKnown : IsKnown list_sequence key_map world (reference 5) 1000 odd_group
unfolding opaque_map_lookup_type opaque_map_lookup opaque_get_context_key opaque_get_data_key
    ℕ_discrete
odd-IsKnown = record { finds = refl; here = refl; same_context = refl; keeps_key = refl }

three-IsKnown : IsKnown list_sequence key_map world (reference 6) 2000 three_group
unfolding opaque_map_lookup_type opaque_map_lookup opaque_get_context_key opaque_get_data_key
    ℕ_discrete
three-IsKnown = record { finds = refl; here = refl; same_context = refl; keeps_key = refl }

first-IsContext : IsContext list_sequence key_map world 9 100
unfolding opaque_map_lookup_type opaque_map_lookup ℕ_discrete
first-IsContext = record { finds = refl; keeps_key = refl; small = omega arith }

world-HasRoom : HasRoom list_sequence key_map world 100
unfolding ℕ_discrete
world-HasRoom = record {
  unused = refl;
  apart = omega arith;
  small = (omega arith, (omega arith, tt));
  free = inr (inl (omega arith, refl));
}

odd-Ascending : Ascending (1 ∷ 3 ∷ 5 ∷ [])
odd-Ascending = ((omega arith, (omega arith, tt)), ((omega arith, tt), (tt, tt)))

three-Ascending : Ascending (3 ∷ 6 ∷ [])
three-Ascending = ((omega arith, tt), (tt, tt))

create_empty_example :
    (w' : World list_sequence key_map) × (r : ℕ) × (pwr_grp_create list_sequence key_map world
        (reference 9)
      ≡ ret (ret_success, some r, w'))
    × IsKnown list_sequence key_map w' r 4000
        (fresh list_sequence key_map (opaque_get_context_key (reference 9)) [])
    × (pwr_grp_get_num_objs list_sequence key_map w' r ≡ ret (pos 0))
unfolding opaque_get_context_key opaque_get_data_key
create_empty_example =
    create_empty list_sequence key_map world (reference 9) 100 refl first-IsContext world-HasRoom

operands :
    HasOperands list_sequence key_map world 100
      (reference 5)
      (reference 6)
      1000
      2000
      odd_group
      three_group
unfolding opaque_get_context_key
operands = record {
  known1 = odd-IsKnown;
  known2 = three-IsKnown;
  one_context = refl;
  context = first-IsContext;
  room = world-HasRoom;
}

set_operations-Combines_example :
    Combines list_sequence key_map world
      (reference 5)
      (pwr_grp_union list_sequence key_map world (reference 5) (reference 6))
      (λ a. contains (1 ∷ 3 ∷ 5 ∷ []) a || contains (3 ∷ 6 ∷ []) a)
    × Combines list_sequence key_map world
        (reference 5)
        (pwr_grp_intersection list_sequence key_map world (reference 5) (reference 6))
        (λ a. contains (1 ∷ 3 ∷ 5 ∷ []) a && contains (3 ∷ 6 ∷ []) a)
    × Combines list_sequence key_map world
        (reference 5)
        (pwr_grp_difference list_sequence key_map world (reference 5) (reference 6))
        (λ a. contains (1 ∷ 3 ∷ 5 ∷ []) a && not (contains (3 ∷ 6 ∷ []) a))
    × Combines list_sequence key_map world
        (reference 5)
        (pwr_grp_sym_difference list_sequence key_map world (reference 5) (reference 6))
        (λ a. xor (contains (1 ∷ 3 ∷ 5 ∷ []) a) (contains (3 ∷ 6 ∷ []) a))
set_operations-Combines_example =
    set_operations-Combines list_sequence key_map world 100 (reference 5) (reference 6) 1000 2000
      odd_group three_group operands odd-Ascending three-Ascending

add_remove_obj-Edits_example :
    Edits list_sequence key_map world
      (reference 5)
      1000
      (pwr_grp_add_obj list_sequence key_map world (reference 5) (reference 7))
      (λ x. (x == 3000) || contains (1 ∷ 3 ∷ 5 ∷ []) x)
    × Edits list_sequence key_map world
        (reference 5)
        1000
        (pwr_grp_remove_obj list_sequence key_map world (reference 5) (reference 7))
        (λ x. contains (1 ∷ 3 ∷ 5 ∷ []) x && not (x == 3000))
unfolding opaque_map_lookup_type opaque_map_lookup opaque_get_context_key opaque_get_data_key
    ℕ_discrete
add_remove_obj-Edits_example =
    add_remove_obj-Edits list_sequence key_map world (reference 5) 1000 (reference 7) 3000 odd_group
      odd-IsKnown refl refl odd-Ascending tt

destroyed_refused_example :
    (w' : World list_sequence key_map) × (pwr_grp_destroy list_sequence key_map world (reference 5)
      ≡ ret (ret_success, none, w'))
    × (w'.groups 1000 ≡ none)
    × (pwr_grp_get_num_objs list_sequence key_map w' (reference 5) ≡ ret ret_failure)
    × (pwr_grp_duplicate list_sequence key_map w' (reference 5) ≡ ret (ret_failure, none, w'))
    × (pwr_grp_destroy list_sequence key_map w' (reference 5) ≡ ret (ret_failure, none, w'))
unfolding opaque_get_context_key opaque_get_data_key
destroyed_refused_example =
    destroyed_refused list_sequence key_map world (reference 5) 1000 100 odd_group odd-IsKnown
      first-IsContext tt (omega arith)
