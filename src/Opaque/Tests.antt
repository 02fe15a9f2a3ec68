-- ===== src/Opaque/Tests.antt =====
-- Runs of the map of opaque keys, on an association list.
use cray_pwrapi.Base.{
  ℕ, ◌≡◌, ◌≢◌, refl, List, [], ◌∷◌, true, none, some, arith, ◌⊎◌, inl, inr, ℕ_discrete,
}
use cray_pwrapi.Glib.HashTable.{HashTable}
use cray_pwrapi.Glib.Concrete.ListTable.{list_table}
use cray_pwrapi.Opaque.Map.{
  opaque_invalid, opaque_group, OpaqueMap, opaque_map_lookup, opaque_map_lookup_type,
  opaque_map_insert, opaque_map_remove,
}
use cray_pwrapi.Opaque.Insert.{insert_found}
use cray_pwrapi.Opaque.Zero.{insert_zero_stale}

abbrev key_table : HashTable ℕ ℕ
key_table = list_table ℕ_discrete

abbrev one_key : List ℕ → OpaqueMap key_table
one_key rand = record {
  rand = rand;
  table = (5, 1000) ∷ [];
  refs = λ a. record { type_of = opaque_group; key = 5 };
}

insert_found_example :
    (key : ℕ) × (map' : OpaqueMap key_table) × (opaque_map_insert key_table
        (some (one_key (5 ∷ 8 ∷ [])))
        opaque_group
        2000
      ≡ some (key, some map'))
    × (key ≢ 0)
    × (key_table.lookup (one_key (5 ∷ 8 ∷ [])).table key ≡ none)
    × (opaque_map_lookup_type key_table (some map') key opaque_group ≡ some 2000)
    × ((map'.refs 2000).key ≡ key)
    × ((5 ≡ key)
        ⊎ (opaque_map_lookup key_table (some map') 5
            ≡ opaque_map_lookup key_table (some (one_key (5 ∷ 8 ∷ []))) 5))
unfolding ℕ_discrete
insert_found_example =
    insert_found key_table (one_key (5 ∷ 8 ∷ [])) opaque_group 2000 5
      (inr (inl (omega arith, refl))) (omega arith)

insert_zero_stale_example :
    (map1 : OpaqueMap key_table) × (map2 : OpaqueMap key_table) × (opaque_map_insert key_table
        (some (one_key (0 ∷ 8 ∷ [])))
        opaque_group
        2000
      ≡ some (8, some map1))
    × (opaque_map_remove key_table (some map1) 8 ≡ (true, some map2))
    × (opaque_map_lookup key_table (some map2) 8 ≡ none)
    × (opaque_map_lookup key_table (some map2) 0 ≡ some 2000)
    × (map2.refs 2000 ≡ record { type_of = opaque_invalid; key = 0 })
unfolding ℕ_discrete
insert_zero_stale_example =
    insert_zero_stale key_table (one_key (0 ∷ 8 ∷ [])) opaque_group 2000 8 [] refl refl
      (omega arith) refl
