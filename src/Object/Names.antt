-- ===== src/Object/Names.antt =====
-- lib/object.c: the tables of names and descriptions.
use cray_pwrapi.Base.{ℕ, List, [], codes}
use cray_pwrapi.Types.{
  AttrName, attr_pstate, attr_cstate, attr_cstate_limit, attr_sstate, attr_current, attr_voltage,
  attr_power, attr_power_limit_min, attr_power_limit_max, attr_freq, attr_freq_req,
  attr_freq_limit_min, attr_freq_limit_max, attr_energy, attr_temp, attr_os_id, attr_throttled_time,
  attr_throttled_count, attr_gov,
}
use cray_pwrapi.Object.Tree.{
  ObjType, obj_platform, obj_cabinet, obj_chassis, obj_board, obj_node, obj_socket, obj_core,
  obj_power_plane, obj_mem, obj_nic, obj_ht,
}

-- The arrays have no element for what stands outside the range; no call reads one there.
unfoldable pub obj_name : ObjType → List ℕ
obj_name obj_platform = codes "PWR_OBJ_PLATFORM"
obj_name obj_cabinet = codes "PWR_OBJ_CABINET"
obj_name obj_chassis = codes "PWR_OBJ_CHASSIS"
obj_name obj_board = codes "PWR_OBJ_BOARD"
obj_name obj_node = codes "PWR_OBJ_NODE"
obj_name obj_socket = codes "PWR_OBJ_SOCKET"
obj_name obj_core = codes "PWR_OBJ_CORE"
obj_name obj_power_plane = codes "PWR_OBJ_POWER_PLANE"
obj_name obj_mem = codes "PWR_OBJ_MEM"
obj_name obj_nic = codes "PWR_OBJ_NIC"
obj_name obj_ht = codes "PWR_OBJ_HT"
obj_name _ = []

unfoldable pub obj_desc : ObjType → List ℕ
obj_desc obj_platform = codes "Unsupported by implementation"
obj_desc obj_cabinet = codes "Unsupported by implementation"
obj_desc obj_chassis = codes "Unsupported by implementation"
obj_desc obj_board = codes "Unsupported by implementation"
obj_desc obj_node = codes "Compute node"
obj_desc obj_socket = codes "Integrated ciruit package installed in socket"
obj_desc obj_core = codes "Processor core in an integrated circuit package"
obj_desc obj_power_plane = codes "A collection of components with the same power source"
obj_desc obj_mem = codes "Memory attached to a socket"
obj_desc obj_nic = codes "Unsupported by implementation"
obj_desc obj_ht = codes "Hardware thread in a processor core"
obj_desc _ = []

unfoldable pub attr_name : AttrName → List ℕ
attr_name attr_pstate = codes "PWR_ATTR_PSTATE"
attr_name attr_cstate = codes "PWR_ATTR_CSTATE"
attr_name attr_cstate_limit = codes "PWR_ATTR_CSTATE_LIMIT"
attr_name attr_sstate = codes "PWR_ATTR_SSTATE"
attr_name attr_current = codes "PWR_ATTR_CURRENT"
attr_name attr_voltage = codes "PWR_ATTR_VOLTAGE"
attr_name attr_power = codes "PWR_ATTR_POWER"
attr_name attr_power_limit_min = codes "PWR_ATTR_POWER_LIMIT_MIN"
attr_name attr_power_limit_max = codes "PWR_ATTR_POWER_LIMIT_MAX"
attr_name attr_freq = codes "PWR_ATTR_FREQ"
attr_name attr_freq_req = codes "PWR_ATTR_FREQ_REQ"
attr_name attr_freq_limit_min = codes "PWR_ATTR_FREQ_LIMIT_MIN"
attr_name attr_freq_limit_max = codes "PWR_ATTR_FREQ_LIMIT_MAX"
attr_name attr_energy = codes "PWR_ATTR_ENERGY"
attr_name attr_temp = codes "PWR_ATTR_TEMP"
attr_name attr_os_id = codes "PWR_ATTR_OS_ID"
attr_name attr_throttled_time = codes "PWR_ATTR_THROTTLED_TIME"
attr_name attr_throttled_count = codes "PWR_ATTR_THROTTLED_COUNT"
attr_name attr_gov = codes "PWR_ATTR_GOV"
attr_name _ = []

unfoldable pub attr_desc : AttrName → List ℕ
attr_desc attr_pstate = codes "Current P-state for the %s object"
attr_desc attr_cstate = codes "current C-state for the %s object"
attr_desc attr_cstate_limit = codes "Lowest C-state allowed for the %s object"
attr_desc attr_sstate = codes "Current S-state for the %s object"
attr_desc attr_current = codes "Discrete current value in amps for the %s object"
attr_desc attr_voltage = codes "Discrete voltage value in volts for the %s object"
attr_desc attr_power = codes "Discrete power value in watts for the %s object"
attr_desc attr_power_limit_min =
    codes "Minimum power limit, lower bound, in watts for the %s object"
attr_desc attr_power_limit_max =
    codes "Maximum power limit, upper bound, in watts for the %s object"
attr_desc attr_freq = codes "Current operating frequency value, in Hz, for the %s object"
attr_desc attr_freq_req = codes "Requested operating frequency value, in Hz, for the %s object"
attr_desc attr_freq_limit_min = codes "Minimum operating frequency limit, in Hz, for the %s object"
attr_desc attr_freq_limit_max = codes "Maximum operating frequency limit, in Hz, for the %s object"
attr_desc attr_energy = codes "Cumulative energy used, in joules, for the %s object"
attr_desc attr_temp = codes "Current temperature, in degrees Celsius, for the %s object"
attr_desc attr_os_id = codes "Operating system identifier for the %s object"
attr_desc attr_throttled_time =
    codes
      "The cumulative time, in nanoseconds, that performance of the %s object was purposefully slowed in order to meet some constraint, such as a power limit"
attr_desc attr_throttled_count =
    codes
      "The cumulative count of the number of times that performance of the %s object was purposefully slowed in order to meet some constraint, such as a power limit"
attr_desc attr_gov =
    codes
      "Power related frequency governer capability exposed through the operating system interface for the %s object."
attr_desc _ = []
