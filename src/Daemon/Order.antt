-- ===== src/Daemon/Order.antt =====
-- daemon/pwrapi_set.c: the comparison of requests as the comparison of ranks, and where it is no
-- order.
use cray_pwrapi.Base.{
  sign_of, ℕ, ◌-◌, ◌^◌, ◌<◌, ◌≡◌, sym, Bool, true, false, Option, none, some, arith, ◌≢◌, ◌∙◌, ltb,
  ◌==◌, before, same,
}
use cray_pwrapi.Types.{
  AttrName, attr_cstate_limit, attr_power_limit_min, attr_power_limit_max, attr_freq_req,
  attr_freq_limit_min, attr_freq_limit_max, attr_gov, AttrDataType, data_double, data_uint64,
  gov_linux_userspace,
}
use cray_pwrapi.Daemon.Request.{
  Doubles, SetInfo, value_compare, gov_compare, comp_by, attr_value_comp,
}

-- IEEE doubles that are no NaN are ordered as 64-bit numbers are.
pub record DoubleOrder (d : Doubles) : Type 0 where
  pub is_nan : ℕ → Bool
  pub double_rank : ℕ → ℕ
  pub double_rank_lt : (v : ℕ) → double_rank v < 2 ^ 64
  pub double_eq_lem :
      (v w : ℕ)
      → is_nan v ≡ false
      → is_nan w ≡ false
      → d.double_eq v w ≡ (double_rank v == double_rank w)
  pub double_lt_lem :
      (v w : ℕ)
      → is_nan v ≡ false
      → is_nan w ≡ false
      → d.double_lt v w ≡ ltb (double_rank v) (double_rank w)

-- Whether the lower value of an attribute has priority. Governors have an order of their own, and
-- the other attributes cannot be set.
abbrev pub lower_first : AttrName → Option Bool
lower_first attr_cstate_limit = some true
lower_first attr_freq_req = some true
lower_first attr_freq_limit_max = some true
lower_first attr_power_limit_max = some true
lower_first attr_freq_limit_min = some false
lower_first attr_power_limit_min = some false
lower_first _ = none

module _ {d : Doubles} (o : DoubleOrder d) where
  open o use {is_nan, double_rank, double_rank_lt, double_eq_lem, double_lt_lem}

  abbrev pub weight : AttrDataType → ℕ → ℕ
  weight data_uint64 v = v
  weight data_double v = double_rank v
  weight _ v = 0

  -- A 64-bit integer, or a double that is a number.
  abbrev pub InRange : AttrDataType → ℕ → Type 0
  InRange data_uint64 v = v < 2 ^ 64
  InRange data_double v = is_nan v ≡ false
  InRange _ v = ⊥

  abbrev pub rank_by : Bool → ℕ → ℕ
  rank_by true w = w
  rank_by false w = 2 ^ 64 - w

  value_compare-sign_of :
      (t : AttrDataType) (v w : ℕ)
      → InRange t v
      → InRange t w
      → value_compare d t v w ≡ sign_of (weight t v) (weight t w)
  unfolding value_compare
  value_compare-sign_of data_uint64 v w p q = ground arith
  value_compare-sign_of data_double v w p q =
      ground (arith, double_eq_lem v w p q, double_lt_lem v w p q)
  value_compare-sign_of _ v w p q = absurd p

  weight_lt : (t : AttrDataType) (v : ℕ) → InRange t v → weight t v < 2 ^ 64
  weight_lt data_uint64 v p = p
  weight_lt data_double v p = double_rank_lt v
  weight_lt _ v p = absurd p

  sign_of_flip :
      (v w : ℕ) → v < 2 ^ 64 → w < 2 ^ 64 → sign_of w v ≡ sign_of (2 ^ 64 - v) (2 ^ 64 - w)
  sign_of_flip v w p q = ground arith

  lower-sign_of :
      (t : AttrDataType) (v w : ℕ) (up : Bool)
      → some true ≡ some up
      → InRange t v
      → InRange t w
      → value_compare d t v w ≡ sign_of (rank_by up (weight t v)) (rank_by up (weight t w))
  lower-sign_of t v w true h p q = value_compare-sign_of t v w p q
  lower-sign_of t v w false h p q = cc

  higher-sign_of :
      (t : AttrDataType) (v w : ℕ) (up : Bool)
      → some false ≡ some up
      → InRange t v
      → InRange t w
      → value_compare d t w v ≡ sign_of (rank_by up (weight t v)) (rank_by up (weight t w))
  higher-sign_of t v w true h p q = cc
  higher-sign_of t v w false h p q =
      value_compare-sign_of t w v q p
      ∙ sign_of_flip (weight t v) (weight t w) (weight_lt t v p) (weight_lt t w q)

  comp_by-sign_of :
      (a : AttrName) (up : Bool) (s1 s2 : SetInfo)
      → lower_first a ≡ some up
      → s2.data_type ≡ s1.data_type
      → InRange s1.data_type s1.value
      → InRange s1.data_type s2.value
      → comp_by d a s1 s2
        ≡ sign_of
            (rank_by up (weight s1.data_type s1.value))
            (rank_by up (weight s1.data_type s2.value))
  unfolding comp_by
  comp_by-sign_of attr_cstate_limit up s1 s2 h e p q =
      lower-sign_of s1.data_type s1.value s2.value up h p q
  comp_by-sign_of attr_freq_req up s1 s2 h e p q =
      lower-sign_of s1.data_type s1.value s2.value up h p q
  comp_by-sign_of attr_freq_limit_max up s1 s2 h e p q =
      lower-sign_of s1.data_type s1.value s2.value up h p q
  comp_by-sign_of attr_power_limit_max up s1 s2 h e p q =
      lower-sign_of s1.data_type s1.value s2.value up h p q
  comp_by-sign_of attr_freq_limit_min up s1 s2 h e p q =
      higher-sign_of s1.data_type s1.value s2.value up h p q
  comp_by-sign_of attr_power_limit_min up s1 s2 h e p q =
      higher-sign_of s1.data_type s1.value s2.value up h p q
  comp_by-sign_of _ up s1 s2 h e p q = cc

  -- A request for one attribute with values of one type that can be compared.
  pub record IsRanked (a : AttrName) (t : AttrDataType) (up : Bool) (s : SetInfo) : Type 0 where
    pub same_attribute : s.attribute ≡ a
    pub same_type : s.data_type ≡ t
    pub in_range : InRange t s.value

  -- The lower the rank, the higher the priority.
  abbrev pub rank : AttrDataType → Bool → SetInfo → ℕ
  rank t up s = rank_by up (weight t s.value)

  -- For two requests for one attribute other than the governor, both with integers of 64 bits or
  -- both with doubles that are no NaN, attr_value_comp is the sign of the comparison of their
  -- ranks: of the values where the lower value has priority, and of the distances of the values
  -- from the top where the higher value has priority.
  pub attr_value_comp-sign_of :
      (a : AttrName) (t : AttrDataType) (up : Bool) (s1 s2 : SetInfo)
      → lower_first a ≡ some up
      → IsRanked a t up s1
      → IsRanked a t up s2
      → attr_value_comp d s1 s2 ≡ sign_of (rank t up s1) (rank t up s2)
  unfolding attr_value_comp
  attr_value_comp-sign_of a t up s1 s2 h r1 r2 = rw (← r1.same_type) (
      comp_by-sign_of s1.attribute up s1 s2 (rw r1.same_attribute h)
        (r2.same_type ∙ sym r1.same_type) (rw r1.same_type r1.in_range)
        (rw r1.same_type r2.in_range))

-- The order of governors is not transitive: of two requests for one governor, made before and after
-- a request for another one, neither comes first, though the later comes before the other and
-- the other before the earlier.
pub gov_compare_not_transitive :
    (d : Doubles) (s1 s2 s3 : SetInfo)
    → s1.attribute ≡ attr_gov
    → s2.attribute ≡ attr_gov
    → s1.value ≡ s3.value
    → s1.value ≢ s2.value
    → s1.value ≢ gov_linux_userspace
    → s2.value ≢ gov_linux_userspace
    → s3.timestamp < s2.timestamp
    → s2.timestamp < s1.timestamp
    → (attr_value_comp d s1 s2 ≡ before)
      × (attr_value_comp d s2 s3 ≡ before)
      × (attr_value_comp d s1 s3 ≡ same)
unfolding attr_value_comp comp_by gov_compare
gov_compare_not_transitive d s1 s2 s3 a1 a2 e n u1 u2 t1 t2 =
    (ground arith, ground arith, ground arith)
