-- ===== src/Opaque/Zero.antt =====
-- lib/opaque.c: g_rand_int may give 0, which is the key NULL.
use cray_pwrapi.Base.{
  ℕ, ◌≡◌, ◌≢◌, refl, sym, ◌∙◌, List, ◌∷◌, true, false, none, some, ◌==◌, arith, update_self,
}
use cray_pwrapi.Glib.HashTable.{HashTable}
use cray_pwrapi.Opaque.Map.{
  OpaqueType, opaque_invalid, OpaqueMap, opaque_map_clean_entry, opaque_map_lookup, enter,
  insert_loop, opaque_map_insert, opaque_map_remove,
}

-- Where NULL stands for nothing and the next random number is 0, opaque_map_insert puts the
-- structure under NULL as well: it returns the number after it if that is no key, and once the
-- structure is removed under this key, NULL still stands for it, with an invalid reference.
pub insert_zero_stale :
    (h : HashTable ℕ ℕ) (map : OpaqueMap h) (type : OpaqueType) (opaque key : ℕ) (rand : List ℕ)
    → map.rand ≡ 0 ∷ key ∷ rand
    → h.lookup map.table 0 ≡ none
    → key ≢ 0
    → h.lookup map.table key ≡ none
    → (map1 : OpaqueMap h) × (map2 : OpaqueMap h) × (opaque_map_insert h (some map) type opaque
        ≡ some (key, some map1))
      × (opaque_map_remove h (some map1) key ≡ (true, some map2))
      × (opaque_map_lookup h (some map2) key ≡ none)
      × (opaque_map_lookup h (some map2) 0 ≡ some opaque)
      × (map2.refs opaque ≡ record { type_of = opaque_invalid; key = 0 })
unfolding opaque_map_insert insert_loop enter opaque_map_remove opaque_map_lookup
    opaque_map_clean_entry
insert_zero_stale h map type opaque key rand r free0 ne free =
    let map1 : OpaqueMap h = record (enter h (enter h map type opaque 0) type opaque key) {
      rand = rand;
    } in
    let fresh = h.lookup-insert_ne map.table 0 key opaque ne ∙ free in
    let there = h.lookup-insert_self (h.insert map.table 0 opaque) key opaque in
    let nonzero : (key == 0) ≡ false = ground arith in
    (
      map1,
      record map1 {
        table = h.remove map1.table key;
        refs = opaque_map_clean_entry h map1.refs opaque;
      },
      rw (r, opaque_map_insert)
          (rw (free0, insert_loop) (rw (fresh, insert_loop) (rw nonzero refl))),
      rw (there, opaque_map_remove) refl,
      h.lookup-remove_self map1.table key,
      h.lookup-remove_ne map1.table key 0 (λ e. ne (sym e))
          ∙ h.lookup-insert_ne (h.insert map.table 0 opaque) key 0 opaque (λ e. ne (sym e))
          ∙ h.lookup-insert_self map.table 0 opaque,
      update_self map1.refs opaque (record { type_of = opaque_invalid; key = 0 }),
    )
