-- ===== src/Types.antt =====
-- include/cray-powerapi/types.h: the enumerations and return codes that the modules share.
use cray_pwrapi.Base.{ℕ, ℤ, pos, negsuc}

-- PWR_AttrName
pub data AttrName : Type 0 where
  attr_pstate attr_cstate attr_cstate_limit attr_sstate attr_current attr_voltage attr_power
        attr_power_limit_min attr_power_limit_max attr_freq attr_freq_req attr_freq_limit_min
        attr_freq_limit_max attr_energy attr_temp attr_os_id attr_throttled_time
        attr_throttled_count attr_gov num_attr_names attr_invalid attr_not_specified :
      AttrName

-- PWR_AttrDataType
pub data AttrDataType : Type 0 where
  data_double data_uint64 num_attr_data_types data_invalid data_not_specified : AttrDataType

-- PWR_AttrStat
pub data AttrStat : Type 0 where
  stat_min stat_max stat_avg stat_stdev stat_cv stat_sum num_attr_stats stat_invalid
        stat_not_specified :
      AttrStat

-- PWR_MetaName
pub data MetaName : Type 0 where
  md_num md_min md_max md_precision md_accuracy md_update_rate md_sample_rate md_time_window
        md_ts_latency md_ts_accuracy md_max_len md_name_len md_name md_desc_len md_desc md_value_len
        md_vendor_info_len md_vendor_info md_measure_method num_meta_names md_invalid
        md_not_specified :
      MetaName

-- PWR_Role
pub data Role : Type 0 where
  role_app role_mc role_os role_user role_rm role_admin role_mgr role_acc num_roles role_invalid
        role_not_specified :
      Role

-- PWR_GOV_LINUX_USERSPACE
abbrev pub gov_linux_userspace : ℕ
gov_linux_userspace = 4

-- PWR_RET_SUCCESS, PWR_RET_FAILURE, PWR_RET_INVALID, PWR_RET_BAD_INDEX, PWR_RET_OP_NO_PERM,
-- PWR_RET_NO_OBJ_AT_INDEX
abbrev pub ret_success : ℤ
ret_success = pos 0

abbrev pub ret_failure : ℤ
ret_failure = negsuc 0

abbrev pub ret_invalid : ℤ
ret_invalid = negsuc 3

abbrev pub ret_bad_index : ℤ
ret_bad_index = negsuc 9

abbrev pub ret_op_no_perm : ℤ
ret_op_no_perm = negsuc 11

abbrev pub ret_no_obj_at_index : ℤ
ret_no_obj_at_index = negsuc 13

-- PWR_RET_NOT_IMPLEMENTED, PWR_RET_EMPTY, PWR_RET_READ_ONLY
abbrev pub ret_not_implemented : ℤ
ret_not_implemented = negsuc 1

abbrev pub ret_empty : ℤ
ret_empty = negsuc 2

abbrev pub ret_read_only : ℤ
ret_read_only = negsuc 7

-- PWR_RET_WARN_TRUNC, PWR_RET_NO_ATTRIB, PWR_RET_NO_META, PWR_RET_BAD_VALUE, PWR_RET_OUT_OF_RANGE
abbrev pub ret_warn_trunc : ℤ
ret_warn_trunc = pos 5

abbrev pub ret_no_attrib : ℤ
ret_no_attrib = negsuc 5

abbrev pub ret_no_meta : ℤ
ret_no_meta = negsuc 6

abbrev pub ret_bad_value : ℤ
ret_bad_value = negsuc 8

abbrev pub ret_out_of_range : ℤ
ret_out_of_range = negsuc 12
