-- ===== src/Daemon/Request.antt =====
-- daemon/pwrapi_set.h and pwrapi_set.c: a set request, and the comparison that ranks requests.
use cray_pwrapi.Base.{ℕ, List, Bool, Option, ltb, ◌==◌, if◌then◌else◌, Sign, before, same, after}
use cray_pwrapi.Types.{
  AttrName, attr_cstate_limit, attr_power_limit_min, attr_power_limit_max, attr_freq_req,
  attr_freq_limit_min, attr_freq_limit_max, attr_gov, AttrDataType, data_double, data_uint64,
  gov_linux_userspace,
}

-- A file name, as its bytes.
abbrev pub FilePath : Type 0
FilePath = List ℕ

-- The comparison of two C doubles, given as the bit patterns of a `type_union_t`.
pub record Doubles : Type 0 where
  pub double_eq : ℕ → ℕ → Bool
  pub double_lt : ℕ → ℕ → Bool

-- `set_info_t` with the fields of its `powerapi_setreq_t` that the daemon acts on. `ident` is the
-- address of the structure, `value` the 64 bits of the union, `skinfo` the address of the socket.
pub record SetInfo : Type 0 where
  pub ident : ℕ
  pub attribute : AttrName
  pub data_type : AttrDataType
  pub value : ℕ
  pub path : FilePath
  pub skinfo : Option ℕ
  pub timestamp : ℕ

module _ (d : Doubles) where
  open d use {double_eq, double_lt}

  unfoldable pub value_compare : AttrDataType → ℕ → ℕ → Sign
  value_compare data_uint64 v1 v2 = if v1 == v2 then same else if ltb v1 v2 then before else after
  value_compare data_double v1 v2 =
      if double_eq v1 v2 then same else if double_lt v1 v2 then before else after
  value_compare _ v1 v2 = same

  -- The userspace governor comes first; of others the newer request.
  unfoldable pub gov_compare : SetInfo → SetInfo → Sign
  gov_compare s1 s2 =
      if s1.value == s2.value
      then same
      else if s1.value == gov_linux_userspace
      then before
      else if s2.value == gov_linux_userspace
      then after
      else if ltb s2.timestamp s1.timestamp
      then before
      else after

  unfoldable pub comp_by : AttrName → SetInfo → SetInfo → Sign
  unfolding value_compare gov_compare
  comp_by attr_cstate_limit s1 s2 = value_compare s1.data_type s1.value s2.value
  comp_by attr_freq_req s1 s2 = value_compare s1.data_type s1.value s2.value
  comp_by attr_freq_limit_max s1 s2 = value_compare s1.data_type s1.value s2.value
  comp_by attr_power_limit_max s1 s2 = value_compare s1.data_type s1.value s2.value
  comp_by attr_freq_limit_min s1 s2 = value_compare s1.data_type s2.value s1.value
  comp_by attr_power_limit_min s1 s2 = value_compare s1.data_type s2.value s1.value
  comp_by attr_gov s1 s2 = gov_compare s1 s2
  comp_by _ s1 s2 = same

  -- `before` means that the first request is of higher priority.
  unfoldable pub attr_value_comp : SetInfo → SetInfo → Sign
  unfolding comp_by
  attr_value_comp s1 s2 = comp_by s1.attribute s1 s2
