-- ===== src/Object/Tree.antt =====
-- lib/object.h and include/cray-powerapi/types.h: the objects of the hierarchy, a GNode tree, and the
-- functions that a plugin provides for them.
use cray_pwrapi.Base.{ℕ, ◌+◌, ◌*◌, ◌%◌, ◌^◌, Bool, Option, ℤ}

-- PWR_ObjType
pub data ObjType : Type 0 where
  obj_platform obj_cabinet obj_chassis obj_board obj_node obj_socket obj_core obj_power_plane
        obj_mem obj_nic obj_ht num_obj_types obj_invalid obj_not_specified :
      ObjType

-- `obj_t` with its address and the children of its `gnode`, in their order.
mutual
  pub data Obj : Type 0 where
    object : ObjType → (self os_id : ℕ) → Children → Obj

  pub data Children : Type 0 where
    childless : Children
    sibling : Obj → Children → Children

abbrev pub type_of : Obj → ObjType
type_of (object type self os_id children) = type

abbrev pub children_of : Obj → Children
children_of (object type self os_id children) = children

-- `struct timespec`
pub record Timespec : Type 0 where
  pub tv_sec : ℕ
  pub tv_nsec : ℕ

-- pwr_tspec_to_nsec
unfoldable pub pwr_tspec_to_nsec : Timespec → ℕ
pwr_tspec_to_nsec ts = (ts.tv_sec * 1000000000 + ts.tv_nsec) % 2 ^ 64

module _ (S : Type 0) where
  -- What a read of an attribute returns: the code, what it stored through `value` and through `ts` if
  -- anything, and the state of the machine.
  pub record Reading : Type 0 where
    pub code : ℤ
    pub value : Option ℕ
    pub tspec : Option Timespec
    pub machine : S

  -- A plugin's functions on the object at an address: get_*, and set_* with the connection to the
  -- daemon and the 64 bits of the value.
  abbrev pub Getter : Type 0
  Getter = ℕ → S → Reading

  abbrev pub Setter : Type 0
  Setter = ℕ → ℕ → ℕ → S → ℤ × S

  -- `struct node_ops`
  pub record NodeOps : Type 0 where
    pub get_power : Getter
    pub get_power_limit_max : Getter
    pub get_energy : Getter

  -- `struct socket_ops`
  pub record SocketOps : Type 0 where
    pub get_power : Getter
    pub get_power_limit_max : Getter
    pub set_power_limit_max : Setter
    pub get_energy : Getter
    pub get_throttled_time : Getter
    pub get_temp : Getter

  -- `struct mem_ops`
  pub record MemOps : Type 0 where
    pub get_power : Getter
    pub get_power_limit_max : Getter
    pub set_power_limit_max : Setter
    pub get_energy : Getter
    pub get_throttled_time : Getter

  -- `struct pplane_ops`
  pub record PplaneOps : Type 0 where
    pub get_power : Getter
    pub get_energy : Getter

  -- `struct core_ops`
  pub record CoreOps : Type 0 where
    pub get_temp : Getter

  -- `struct ht_ops`
  pub record HtOps : Type 0 where
    pub get_cstate_limit : Getter
    pub set_cstate_limit : Setter
    pub get_freq : Getter
    pub get_freq_req : Getter
    pub set_freq_req : Setter
    pub get_freq_limit_min : Getter
    pub set_freq_limit_min : Setter
    pub get_freq_limit_max : Getter
    pub set_freq_limit_max : Setter
    pub get_governor : Getter
    pub set_governor : Setter

  -- The tables that every object of a type points to, and what the library calls of the system:
  -- clock_gettime, which may fail, and whether the next call of malloc gives memory.
  pub record Machine : Type 0 where
    pub node : NodeOps
    pub socket : SocketOps
    pub mem : MemOps
    pub pplane : PplaneOps
    pub core : CoreOps
    pub ht : HtOps
    pub clock_gettime : S → Option Timespec × S
    pub malloc : S → Bool
