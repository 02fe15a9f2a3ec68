-- ===== src/Object/Meta.antt =====
-- lib/object.c: the metadata of objects and attributes.
use cray_pwrapi.Base.{
  ℕ, ◌+◌, ◌-◌, List, [], ◌∷◌, ◌++◌, Bool, Option, none, some, ℤ, length, ◌==◌, if◌then◌else◌,
}
use cray_pwrapi.Types.{
  AttrName, attr_not_specified, MetaName, md_max_len, md_name_len, md_name, md_desc_len, md_desc,
  md_vendor_info_len, md_vendor_info, num_meta_names, md_invalid, md_not_specified, ret_success,
  ret_failure, ret_no_meta, ret_bad_value,
}
use cray_pwrapi.Object.Tree.{
  ObjType, obj_node, obj_socket, obj_core, obj_power_plane, obj_mem, obj_ht, Obj, object,
}
use cray_pwrapi.Object.Names.{obj_name, obj_desc, attr_name, attr_desc}

-- What is stored through `value`: 64 bits, or a text.
pub data Stored : Type 0 where
  number : ℕ → Stored
  text : List ℕ → Stored

-- sprintf of a format whose only conversion is one `%s`.
unfoldable pub print_string : List ℕ → List ℕ → List ℕ
print_string [] s = []
print_string (c ∷ []) s = c ∷ []
print_string (c ∷ (d ∷ cs)) s =
    let rest = print_string (d ∷ cs) s in
    if c == b'%' then (if d == b's' then s ++ cs else c ∷ rest) else c ∷ rest

module _ (S : Type 0) where
  -- The code, what is stored if anything, and the state of the machine.
  pub record MetaReading : Type 0 where
    pub code : ℤ
    pub value : Option Stored
    pub machine : S

  -- The last three functions of the table of a type of objects. Each takes the address of the object;
  -- get_meta_at_index takes whether `value` and `value_str` are given, and stores through both.
  pub record MetaOps : Type 0 where
    pub get_meta : ℕ → AttrName → MetaName → S → MetaReading
    pub set_meta : ℕ → ℕ → AttrName → MetaName → ℕ → S → ℤ × S
    pub get_meta_at_index : ℕ → AttrName → ℕ → Bool → Bool → S → ℤ × Option ℕ × Option (List ℕ) × S

  pub record MetaTables : Type 0 where
    pub node : MetaOps
    pub socket : MetaOps
    pub core : MetaOps
    pub pplane : MetaOps
    pub mem : MetaOps
    pub ht : MetaOps

-- The table of a type of objects.
abbrev pub ops_of : {S : Type 0} → MetaTables S → ObjType → Option (MetaOps S)
ops_of t obj_node = some t.node
ops_of t obj_socket = some t.socket
ops_of t obj_core = some t.core
ops_of t obj_power_plane = some t.pplane
ops_of t obj_mem = some t.mem
ops_of t obj_ht = some t.ht
ops_of t _ = none

module _ {S : Type 0} (t : MetaTables S) where
  abbrev pub answers : Stored → S → MetaReading S
  answers v s = record { code = ret_success; value = some v; machine = s }

  abbrev pub refuses : ℤ → S → MetaReading S
  refuses code s = record { code = code; value = none; machine = s }

  unfoldable pub obj_attr_get_meta_plugin : Obj → AttrName → MetaName → S → MetaReading S
  obj_attr_get_meta_plugin (object type self os_id cs) attr meta s = elim (ops_of t type) [
    | none ↦ refuses ret_bad_value s
    | some ops ↦ ops.get_meta self attr meta s
  ]

  unfoldable pub obj_attr_set_meta_plugin : Obj → ℕ → AttrName → MetaName → ℕ → S → ℤ × S
  obj_attr_set_meta_plugin (object type self os_id cs) ipc attr meta value s =
      elim (ops_of t type) [
        | none ↦ (ret_bad_value, s)
        | some ops ↦ ops.set_meta self ipc attr meta value s
      ]

  unfoldable pub obj_get_meta : Obj → MetaName → S → MetaReading S
  unfolding obj_attr_get_meta_plugin
  obj_get_meta (object type self os_id cs) md_name_len s =
      answers (number (length (obj_name type) + 1)) s
  obj_get_meta (object type self os_id cs) md_name s = answers (text (obj_name type)) s
  obj_get_meta (object type self os_id cs) md_desc_len s =
      answers (number (length (obj_desc type) + 1)) s
  obj_get_meta (object type self os_id cs) md_desc s = answers (text (obj_desc type)) s
  obj_get_meta obj md_vendor_info_len s =
      obj_attr_get_meta_plugin obj attr_not_specified md_vendor_info_len s
  obj_get_meta obj md_vendor_info s =
      obj_attr_get_meta_plugin obj attr_not_specified md_vendor_info s
  obj_get_meta obj md_max_len s = refuses ret_failure s
  obj_get_meta obj num_meta_names s = refuses ret_failure s
  obj_get_meta obj md_invalid s = refuses ret_failure s
  obj_get_meta obj md_not_specified s = refuses ret_failure s
  obj_get_meta obj _ s = refuses ret_no_meta s

  -- sprintf is taken to succeed.
  unfoldable pub obj_attr_get_meta : Obj → AttrName → MetaName → S → MetaReading S
  unfolding obj_attr_get_meta_plugin print_string
  obj_attr_get_meta obj attr md_name_len s = answers (number (length (attr_name attr) + 1)) s
  obj_attr_get_meta obj attr md_name s = answers (text (attr_name attr)) s
  obj_attr_get_meta (object type self os_id cs) attr md_desc_len s =
      answers (number (length (attr_desc attr) - 2 + length (obj_name type) + 1)) s
  obj_attr_get_meta (object type self os_id cs) attr md_desc s =
      answers (text (print_string (attr_desc attr) (obj_name type))) s
  obj_attr_get_meta obj attr md_vendor_info_len s =
      obj_attr_get_meta_plugin obj attr_not_specified md_vendor_info_len s
  obj_attr_get_meta obj attr md_vendor_info s =
      obj_attr_get_meta_plugin obj attr_not_specified md_vendor_info s
  obj_attr_get_meta obj attr md_max_len s = refuses ret_failure s
  obj_attr_get_meta obj attr num_meta_names s = refuses ret_failure s
  obj_attr_get_meta obj attr md_invalid s = refuses ret_failure s
  obj_attr_get_meta obj attr md_not_specified s = refuses ret_failure s
  obj_attr_get_meta obj attr meta s = obj_attr_get_meta_plugin obj attr meta s
