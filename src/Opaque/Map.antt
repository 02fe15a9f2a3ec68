-- ===== src/Opaque/Map.antt =====
-- lib/opaque.c: the map of opaque keys. A structure is an address; its `opaque_ref_t` is kept in a
-- memory that the map writes. The random numbers that g_rand_int has still to give are a list, and
-- a result is `none` where they do not suffice.
use cray_pwrapi.Base.{
  ℕ, List, [], ◌∷◌, Bool, true, false, Option, none, some, ◌==◌, if◌then◌else◌, update,
}
use cray_pwrapi.Glib.HashTable.{HashTable}

-- `opaque_type_t`
pub data OpaqueType : Type 0 where
  opaque_invalid opaque_context opaque_group opaque_object opaque_status opaque_stat opaque_hint
        opaque_max :
      OpaqueType

-- The number of a type, by which C compares them.
abbrev pub type_code : OpaqueType → ℕ
type_code opaque_invalid = 0
type_code opaque_context = 1
type_code opaque_group = 2
type_code opaque_object = 3
type_code opaque_status = 4
type_code opaque_stat = 5
type_code opaque_hint = 6
type_code opaque_max = 7

-- `opaque_ref_t`
pub record OpaqueRef : Type 0 where
  pub type_of : OpaqueType
  pub key : ℕ

module _ (h : HashTable ℕ ℕ) where
  -- `opaque_map_t`, with the memory of the references.
  pub record OpaqueMap : Type 0 where
    pub rand : List ℕ
    pub table : h.Table
    pub refs : ℕ → OpaqueRef

  -- What the table calls on a structure that leaves it.
  unfoldable pub opaque_map_clean_entry : (ℕ → OpaqueRef) → ℕ → ℕ → OpaqueRef
  opaque_map_clean_entry refs opaque =
      update refs opaque (record { type_of = opaque_invalid; key = 0 })

  unfoldable pub opaque_map_new : List ℕ → (ℕ → OpaqueRef) → OpaqueMap
  opaque_map_new rand refs = record { rand = rand; table = h.empty; refs = refs }

  -- The address of a structure, or NULL; a NULL map has none.
  unfoldable pub opaque_map_lookup : Option OpaqueMap → ℕ → Option ℕ
  opaque_map_lookup none key = none
  opaque_map_lookup (some map) key = h.lookup map.table key

  unfoldable pub opaque_map_lookup_type : Option OpaqueMap → ℕ → OpaqueType → Option ℕ
  unfolding opaque_map_lookup
  opaque_map_lookup_type none key type = none
  opaque_map_lookup_type (some map) key type = elim (opaque_map_lookup (some map) key) [
    | none ↦ none
    | some opaque ↦
        if type_code (map.refs opaque).type_of == type_code type then some opaque else none
  ]

  -- One entry more, without a test for 0.
  unfoldable pub enter : OpaqueMap → OpaqueType → ℕ → ℕ → OpaqueMap
  enter map type opaque key = record map {
    refs = update map.refs opaque (record { type_of = type; key = key });
    table = h.insert map.table key opaque;
  }

  -- The loop runs until `key` is not NULL. The first list is what g_rand_int has still to give.
  unfoldable pub insert_loop : List ℕ → OpaqueMap → OpaqueType → ℕ → Option (ℕ × OpaqueMap)
  unfolding enter
  insert_loop [] map type opaque = none
  insert_loop (key ∷ rand) map type opaque = elim (h.lookup map.table key) [
    | some other ↦ insert_loop rand map type opaque
    | none ↦ elim (key == 0) [
      | true ↦ insert_loop rand (enter map type opaque key) type opaque
      | false ↦ some (key, record (enter map type opaque key) { rand = rand })
    ]
  ]

  -- The key is NULL for a NULL map.
  unfoldable pub opaque_map_insert :
      Option OpaqueMap → OpaqueType → ℕ → Option (ℕ × Option OpaqueMap)
  unfolding insert_loop
  opaque_map_insert none type opaque = some (0, none)
  opaque_map_insert (some map) type opaque = elim (insert_loop map.rand map type opaque) [
    | none ↦ none
    | some (key, map') ↦ some (key, some map')
  ]

  unfoldable pub opaque_map_remove : Option OpaqueMap → ℕ → Bool × Option OpaqueMap
  unfolding opaque_map_clean_entry
  opaque_map_remove none key = (false, none)
  opaque_map_remove (some map) key = elim (h.lookup map.table key) [
    | none ↦ (false, some map)
    | some opaque ↦ (
      true,
      some (record map {
        table = h.remove map.table key;
        refs = opaque_map_clean_entry map.refs opaque;
      }),
    )
  ]
