-- ===== src/Object/Values.antt =====
-- lib/object.c: reading and setting an attribute of an object. A plugin's failing read stores nothing
-- of use.
use cray_pwrapi.Base.{
  ℕ, zero, suc, Bool, true, false, ◌&&◌, not, none, some, ℤ, pos, negsuc, int_eq, if◌then◌else◌,
}
use cray_pwrapi.Types.{
  AttrName, attr_cstate_limit, attr_power, attr_power_limit_max, attr_freq, attr_freq_req,
  attr_freq_limit_min, attr_freq_limit_max, attr_energy, attr_temp, attr_os_id, attr_throttled_time,
  attr_gov, ret_success, ret_failure, ret_not_implemented, ret_read_only,
}
use cray_pwrapi.Object.Tree.{
  ObjType, obj_node, obj_socket, obj_core, obj_power_plane, obj_mem, obj_ht, Obj, object, Children,
  childless, sibling, Reading, Machine,
}

abbrev pub is_negative : ℤ → Bool
is_negative (pos n) = false
is_negative (negsuc n) = true

-- How forward_attr_set_value goes on from the code of a child that implements the attribute.
unfoldable pub note_status : ℤ → ℤ → ℤ
note_status retval status =
    let recorded = if int_eq retval ret_success then status else retval in
    if not (int_eq status recorded) && is_negative status then ret_failure else recorded

module _ {S : Type 0} (m : Machine S) where
  abbrev pub unread : ℤ → S → Reading S
  unread code s = record { code = code; value = none; tspec = none; machine = s }

  unfoldable pub get_os_id : ℕ → S → Reading S
  get_os_id id s =
      let (now, s1) = m.clock_gettime s in
      elim now [
        | none ↦ unread ret_failure s1
        | some ts ↦ record { code = ret_success; value = some id; tspec = some ts; machine = s1 }
      ]

  unfoldable pub node_attr_get_value : ℕ → ℕ → AttrName → S → Reading S
  unfolding get_os_id
  node_attr_get_value self os_id attr_os_id s = get_os_id os_id s
  node_attr_get_value self os_id attr_power s = m.node.get_power self s
  node_attr_get_value self os_id attr_power_limit_max s = m.node.get_power_limit_max self s
  node_attr_get_value self os_id attr_energy s = m.node.get_energy self s
  node_attr_get_value self os_id _ s = unread ret_not_implemented s

  unfoldable pub socket_attr_get_value : ℕ → ℕ → AttrName → S → Reading S
  unfolding get_os_id
  socket_attr_get_value self os_id attr_os_id s = get_os_id os_id s
  socket_attr_get_value self os_id attr_power s = m.socket.get_power self s
  socket_attr_get_value self os_id attr_power_limit_max s = m.socket.get_power_limit_max self s
  socket_attr_get_value self os_id attr_energy s = m.socket.get_energy self s
  socket_attr_get_value self os_id attr_throttled_time s = m.socket.get_throttled_time self s
  socket_attr_get_value self os_id attr_temp s = m.socket.get_temp self s
  socket_attr_get_value self os_id _ s = unread ret_not_implemented s

  unfoldable pub core_attr_get_value : ℕ → ℕ → AttrName → S → Reading S
  unfolding get_os_id
  core_attr_get_value self os_id attr_os_id s = get_os_id os_id s
  core_attr_get_value self os_id attr_temp s = m.core.get_temp self s
  core_attr_get_value self os_id _ s = unread ret_not_implemented s

  unfoldable pub pplane_attr_get_value : ℕ → ℕ → AttrName → S → Reading S
  unfolding get_os_id
  pplane_attr_get_value self os_id attr_os_id s = get_os_id os_id s
  pplane_attr_get_value self os_id attr_power s = m.pplane.get_power self s
  pplane_attr_get_value self os_id attr_energy s = m.pplane.get_energy self s
  pplane_attr_get_value self os_id _ s = unread ret_not_implemented s

  unfoldable pub mem_attr_get_value : ℕ → ℕ → AttrName → S → Reading S
  unfolding get_os_id
  mem_attr_get_value self os_id attr_os_id s = get_os_id os_id s
  mem_attr_get_value self os_id attr_power s = m.mem.get_power self s
  mem_attr_get_value self os_id attr_power_limit_max s = m.mem.get_power_limit_max self s
  mem_attr_get_value self os_id attr_energy s = m.mem.get_energy self s
  mem_attr_get_value self os_id attr_throttled_time s = m.mem.get_throttled_time self s
  mem_attr_get_value self os_id _ s = unread ret_not_implemented s

  unfoldable pub ht_attr_get_value : ℕ → ℕ → AttrName → S → Reading S
  unfolding get_os_id
  ht_attr_get_value self os_id attr_os_id s = get_os_id os_id s
  ht_attr_get_value self os_id attr_cstate_limit s = m.ht.get_cstate_limit self s
  ht_attr_get_value self os_id attr_freq s = m.ht.get_freq self s
  ht_attr_get_value self os_id attr_freq_req s = m.ht.get_freq_req self s
  ht_attr_get_value self os_id attr_freq_limit_min s = m.ht.get_freq_limit_min self s
  ht_attr_get_value self os_id attr_freq_limit_max s = m.ht.get_freq_limit_max self s
  ht_attr_get_value self os_id attr_gov s = m.ht.get_governor self s
  ht_attr_get_value self os_id _ s = unread ret_not_implemented s

  -- `forward` is the call of forward_attr_set_value on the object itself.
  unfoldable pub node_attr_set_value : (S → ℤ × S) → AttrName → S → ℤ × S
  node_attr_set_value forward attr_os_id s = (ret_read_only, s)
  node_attr_set_value forward attr_power s = (ret_read_only, s)
  node_attr_set_value forward attr_energy s = (ret_read_only, s)
  node_attr_set_value forward _ s = forward s

  unfoldable pub socket_attr_set_value : (S → ℤ × S) → ℕ → ℕ → AttrName → ℕ → S → ℤ × S
  socket_attr_set_value forward self ipc attr_os_id value s = (ret_read_only, s)
  socket_attr_set_value forward self ipc attr_power value s = (ret_read_only, s)
  socket_attr_set_value forward self ipc attr_energy value s = (ret_read_only, s)
  socket_attr_set_value forward self ipc attr_throttled_time value s = (ret_read_only, s)
  socket_attr_set_value forward self ipc attr_temp value s = (ret_read_only, s)
  socket_attr_set_value forward self ipc attr_power_limit_max value s =
      m.socket.set_power_limit_max self ipc value s
  socket_attr_set_value forward self ipc _ value s = forward s

  unfoldable pub core_attr_set_value : (S → ℤ × S) → AttrName → S → ℤ × S
  core_attr_set_value forward attr_os_id s = (ret_read_only, s)
  core_attr_set_value forward attr_temp s = (ret_read_only, s)
  core_attr_set_value forward _ s = forward s

  unfoldable pub pplane_attr_set_value : (S → ℤ × S) → AttrName → S → ℤ × S
  pplane_attr_set_value forward attr_os_id s = (ret_read_only, s)
  pplane_attr_set_value forward attr_power s = (ret_read_only, s)
  pplane_attr_set_value forward attr_energy s = (ret_read_only, s)
  pplane_attr_set_value forward _ s = forward s

  unfoldable pub mem_attr_set_value : (S → ℤ × S) → ℕ → ℕ → AttrName → ℕ → S → ℤ × S
  mem_attr_set_value forward self ipc attr_os_id value s = (ret_read_only, s)
  mem_attr_set_value forward self ipc attr_power value s = (ret_read_only, s)
  mem_attr_set_value forward self ipc attr_energy value s = (ret_read_only, s)
  mem_attr_set_value forward self ipc attr_throttled_time value s = (ret_read_only, s)
  mem_attr_set_value forward self ipc attr_power_limit_max value s =
      m.mem.set_power_limit_max self ipc value s
  mem_attr_set_value forward self ipc _ value s = forward s

  unfoldable pub ht_attr_set_value : (S → ℤ × S) → ℕ → ℕ → AttrName → ℕ → S → ℤ × S
  ht_attr_set_value forward self ipc attr_os_id value s = (ret_read_only, s)
  ht_attr_set_value forward self ipc attr_freq value s = (ret_read_only, s)
  ht_attr_set_value forward self ipc attr_cstate_limit value s =
      m.ht.set_cstate_limit self ipc value s
  ht_attr_set_value forward self ipc attr_freq_req value s = m.ht.set_freq_req self ipc value s
  ht_attr_set_value forward self ipc attr_freq_limit_min value s =
      m.ht.set_freq_limit_min self ipc value s
  ht_attr_set_value forward self ipc attr_freq_limit_max value s =
      m.ht.set_freq_limit_max self ipc value s
  ht_attr_set_value forward self ipc attr_gov value s = m.ht.set_governor self ipc value s
  ht_attr_set_value forward self ipc _ value s = forward s

  -- The switch on the type, with the code for a type that has no attributes.
  unfoldable pub set_by_type : ℤ → (S → ℤ × S) → ObjType → ℕ → ℕ → AttrName → ℕ → S → ℤ × S
  unfolding node_attr_set_value socket_attr_set_value core_attr_set_value pplane_attr_set_value
      mem_attr_set_value ht_attr_set_value
  set_by_type other forward obj_node self ipc attr value s = node_attr_set_value forward attr s
  set_by_type other forward obj_socket self ipc attr value s =
      socket_attr_set_value forward self ipc attr value s
  set_by_type other forward obj_core self ipc attr value s = core_attr_set_value forward attr s
  set_by_type other forward obj_power_plane self ipc attr value s =
      pplane_attr_set_value forward attr s
  set_by_type other forward obj_mem self ipc attr value s =
      mem_attr_set_value forward self ipc attr value s
  set_by_type other forward obj_ht self ipc attr value s =
      ht_attr_set_value forward self ipc attr value s
  set_by_type other forward _ self ipc attr value s = (other, s)

  -- The loop over the children from `retval` and `implemented`.
  unfoldable pub forward_loop : Children → ℕ → AttrName → ℕ → ℤ → ℕ → S → ℤ × S
  unfolding set_by_type note_status
  forward_loop childless ipc attr value retval zero s = (ret_not_implemented, s)
  forward_loop childless ipc attr value retval (suc implemented) s = (retval, s)
  forward_loop (sibling (object type self os_id children) rest) ipc attr value retval implemented
        s =
      let (status, s1) =
        set_by_type ret_not_implemented (forward_loop children ipc attr value ret_success 0) type
          self ipc attr value s in
      let skipped = int_eq status ret_not_implemented in
      forward_loop rest ipc attr value (if skipped then retval else note_status retval status)
        (if skipped then implemented else suc implemented) s1

  unfoldable pub forward_attr_set_value : Children → ℕ → AttrName → ℕ → S → ℤ × S
  unfolding forward_loop
  forward_attr_set_value children ipc attr value s =
      forward_loop children ipc attr value ret_success 0 s

  -- The switch of PWR_ObjAttrGetValue.
  unfoldable pub obj_get_value : Obj → AttrName → S → Reading S
  unfolding node_attr_get_value socket_attr_get_value core_attr_get_value pplane_attr_get_value
      mem_attr_get_value ht_attr_get_value
  obj_get_value (object obj_node self os_id cs) attr s = node_attr_get_value self os_id attr s
  obj_get_value (object obj_socket self os_id cs) attr s = socket_attr_get_value self os_id attr s
  obj_get_value (object obj_core self os_id cs) attr s = core_attr_get_value self os_id attr s
  obj_get_value (object obj_power_plane self os_id cs) attr s =
      pplane_attr_get_value self os_id attr s
  obj_get_value (object obj_mem self os_id cs) attr s = mem_attr_get_value self os_id attr s
  obj_get_value (object obj_ht self os_id cs) attr s = ht_attr_get_value self os_id attr s
  obj_get_value (object _ self os_id cs) attr s = unread ret_failure s

  -- The switch of PWR_ObjAttrSetValue.
  unfoldable pub obj_set_value : Obj → ℕ → AttrName → ℕ → S → ℤ × S
  unfolding set_by_type forward_attr_set_value
  obj_set_value (object type self os_id children) ipc attr value s =
      set_by_type ret_failure (forward_attr_set_value children ipc attr value) type self ipc attr
        value s
