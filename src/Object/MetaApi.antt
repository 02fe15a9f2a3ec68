-- ===== src/Object/MetaApi.antt =====
-- lib/object.c: the calls for metadata, and for the names of attributes. `objects` has the objects by
-- their addresses, and `ipc` the connection of each context to the daemon.
use cray_pwrapi.Base.{
  ℕ, zero, suc, ◌-◌, List, [], ◌∷◌, Bool, true, false, Option, none, some, ℤ, if◌then◌else◌, int_eq,
  take, bytes_eq, not,
}
use cray_pwrapi.Types.{
  AttrName, attr_pstate, attr_cstate, attr_cstate_limit, attr_sstate, attr_current, attr_voltage,
  attr_power, attr_power_limit_min, attr_power_limit_max, attr_freq, attr_freq_req,
  attr_freq_limit_min, attr_freq_limit_max, attr_energy, attr_temp, attr_os_id, attr_throttled_time,
  attr_throttled_count, attr_gov, attr_invalid, attr_not_specified, MetaName, md_update_rate,
  md_sample_rate, md_time_window, md_max_len, num_meta_names, md_invalid, md_not_specified,
  ret_success, ret_failure, ret_read_only, ret_bad_value, ret_out_of_range,
}
use cray_pwrapi.Glib.HashTable.{HashTable}
use cray_pwrapi.Opaque.Key.{opaque_get_context_key, opaque_get_data_key}
use cray_pwrapi.Opaque.Map.{OpaqueMap, opaque_object, opaque_context, opaque_map_lookup_type}
use cray_pwrapi.Object.Tree.{Obj, object, type_of}
use cray_pwrapi.Object.Names.{attr_name}
use cray_pwrapi.Object.Bits.{attr_code, validate_attr}
use cray_pwrapi.Object.Meta.{
  number, MetaReading, MetaTables, ops_of, answers, refuses, obj_attr_set_meta_plugin, obj_get_meta,
  obj_attr_get_meta,
}

abbrev pub meta_in_range : MetaName → Bool
meta_in_range num_meta_names = false
meta_in_range md_invalid = false
meta_in_range md_not_specified = false
meta_in_range _ = true

abbrev pub is_settable : MetaName → Bool
is_settable md_update_rate = true
is_settable md_sample_rate = true
is_settable md_time_window = true
is_settable _ = false

abbrev pub is_not_specified : AttrName → Bool
is_not_specified attr_not_specified = true
is_not_specified _ = false

-- The attributes in the order of their numbers.
abbrev pub all_attrs : List AttrName
all_attrs =
    attr_pstate ∷ attr_cstate ∷ attr_cstate_limit ∷ attr_sstate ∷ attr_current ∷ attr_voltage
    ∷ attr_power ∷ attr_power_limit_min ∷ attr_power_limit_max ∷ attr_freq ∷ attr_freq_req
    ∷ attr_freq_limit_min ∷ attr_freq_limit_max ∷ attr_energy ∷ attr_temp ∷ attr_os_id
    ∷ attr_throttled_time ∷ attr_throttled_count ∷ attr_gov ∷ []

-- snprintf into a buffer of `max` bytes, which is not 0.
abbrev pub snprintf : ℕ → List ℕ → List ℕ
snprintf max s = take (max - 1) s

-- `buf` says whether there is a buffer.
unfoldable pub craypwr_attr_get_name : AttrName → Bool → ℕ → ℤ × Option (List ℕ)
craypwr_attr_get_name attr buf zero = (ret_failure, none)
craypwr_attr_get_name attr buf (suc n) =
    if buf
    then elim (attr_code attr) [
      | none ↦ (ret_failure, none)
      | some code ↦ (ret_success, some (snprintf (suc n) (attr_name attr)))
    ]
    else (ret_failure, none)

unfoldable pub search_name : List ℕ → List AttrName → AttrName
search_name name [] = attr_invalid
search_name name (attr ∷ attrs) =
    let rest = search_name name attrs in if bytes_eq name (attr_name attr) then attr else rest

unfoldable pub craypwr_attr_get_enum : List ℕ → AttrName
unfolding search_name
craypwr_attr_get_enum name = search_name name all_attrs

module _ (h : HashTable ℕ ℕ) where
  -- The connection and the object of a reference, if its context and its object are there.
  unfoldable pub find_object : OpaqueMap h → (ℕ → Obj) → (ℕ → ℕ) → ℕ → Option (ℕ × Obj)
  unfolding opaque_get_context_key opaque_get_data_key
  find_object map objects ipc obj =
      elim (opaque_map_lookup_type h (some map) (opaque_get_context_key obj) opaque_context) [
        | none ↦ none
        | some context ↦
            elim (opaque_map_lookup_type h (some map) (opaque_get_data_key obj) opaque_object) [
              | none ↦ none
              | some a ↦ some (ipc context, objects a)
            ]
      ]

  unfoldable pub pwr_obj_attr_is_valid : OpaqueMap h → (ℕ → Obj) → ℕ → AttrName → ℤ
  unfolding opaque_get_data_key validate_attr
  pwr_obj_attr_is_valid map objects obj attr =
      elim (opaque_map_lookup_type h (some map) (opaque_get_data_key obj) opaque_object) [
        | none ↦ ret_bad_value
        | some a ↦ validate_attr (type_of (objects a)) attr
      ]

module _ {S : Type 0} (t : MetaTables S) where
  -- The metadata that all have, or what the object or the attribute has.
  unfoldable pub get_meta_of : Obj → AttrName → MetaName → S → MetaReading S
  unfolding obj_get_meta obj_attr_get_meta
  get_meta_of obj attr md_max_len s = answers t (number 64) s
  get_meta_of obj attr meta s =
      if is_not_specified attr
      then obj_get_meta t obj meta s
      else obj_attr_get_meta t obj attr meta s

  -- PWR_ObjAttrGetMeta on an object that is found.
  unfoldable pub checked_get_meta : Obj → AttrName → MetaName → S → MetaReading S
  unfolding validate_attr get_meta_of
  checked_get_meta obj attr meta s =
      let status = validate_attr (type_of obj) attr in
      if not (meta_in_range meta)
      then refuses t ret_out_of_range s
      else if is_not_specified attr
      then get_meta_of obj attr meta s
      else if int_eq status ret_success
      then get_meta_of obj attr meta s
      else refuses t status s

  abbrev pub object_meta_at_index :
      Obj → AttrName → ℕ → Bool → Bool → S → ℤ × Option ℕ × Option (List ℕ) × S
  object_meta_at_index (object type self os_id cs) attr index value value_str s =
      elim (ops_of t type) [
        | none ↦ (ret_failure, none, none, s)
        | some ops ↦ ops.get_meta_at_index self attr index value value_str s
      ]

module _ (h : HashTable ℕ ℕ) {S : Type 0} (t : MetaTables S) where
  unfoldable pub pwr_obj_attr_get_meta :
      OpaqueMap h → (ℕ → Obj) → ℕ → AttrName → MetaName → S → MetaReading S
  unfolding find_object checked_get_meta
  pwr_obj_attr_get_meta map objects obj attr meta s =
      elim (find_object h map objects (λ c. 0) obj) [
        | none ↦ refuses t ret_bad_value s
        | some (ipc, o) ↦ checked_get_meta t o attr meta s
      ]

  unfoldable pub pwr_obj_attr_set_meta :
      OpaqueMap h → (ℕ → Obj) → (ℕ → ℕ) → ℕ → AttrName → MetaName → ℕ → S → ℤ × S
  unfolding find_object validate_attr obj_attr_set_meta_plugin
  pwr_obj_attr_set_meta map objects ipc obj attr meta value s =
      elim (find_object h map objects ipc obj) [
        | none ↦ (ret_bad_value, s)
        | some (connection, o) ↦
            let status = validate_attr (type_of o) attr in
            if not (meta_in_range meta)
            then (ret_out_of_range, s)
            else if not (int_eq status ret_success)
            then (status, s)
            else if is_settable meta
            then obj_attr_set_meta_plugin t o connection attr meta value s
            else (ret_read_only, s)
      ]

  unfoldable pub pwr_meta_value_at_index :
      OpaqueMap h
      → (ℕ → Obj)
      → ℕ
      → AttrName
      → ℕ
      → Bool
      → Bool
      → S
      → ℤ × Option ℕ × Option (List ℕ) × S
  unfolding find_object validate_attr
  pwr_meta_value_at_index map objects obj attr index value value_str s =
      elim (find_object h map objects (λ c. 0) obj) [
        | none ↦ (ret_bad_value, none, none, s)
        | some (ipc, o) ↦
            let status = validate_attr (type_of o) attr in
            if int_eq status ret_success
            then object_meta_at_index t o attr index value value_str s
            else (status, none, none, s)
      ]
