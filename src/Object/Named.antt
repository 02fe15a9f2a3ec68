-- ===== src/Object/Named.antt =====
-- lib/object.c: CRAYPWR_AttrGetName and CRAYPWR_AttrGetEnum.
use cray_pwrapi.Base.{
  ℕ, zero, suc, ◌≤◌, ◌≡◌, refl, ap, ◌∙◌, List, [], ◌∷◌, true, some, take, length, arith,
}
use cray_pwrapi.Types.{
  AttrName, attr_pstate, attr_cstate, attr_cstate_limit, attr_sstate, attr_current, attr_voltage,
  attr_power, attr_power_limit_min, attr_power_limit_max, attr_freq, attr_freq_req,
  attr_freq_limit_min, attr_freq_limit_max, attr_energy, attr_temp, attr_os_id, attr_throttled_time,
  attr_throttled_count, attr_gov, num_attr_names, attr_invalid, attr_not_specified, ret_success,
}
use cray_pwrapi.Object.Names.{attr_name}
use cray_pwrapi.Object.Bits.{attr_code}
use cray_pwrapi.Object.MetaApi.{snprintf, craypwr_attr_get_name, search_name, craypwr_attr_get_enum}

take_all : (n : ℕ) (xs : List ℕ) → length xs ≤ n → take n xs ≡ xs
take_all zero [] p = refl
take_all (suc n) [] p = refl
take_all zero (x ∷ xs) p = ground (arith, p)
take_all (suc n) (x ∷ xs) p = ap (λ (l : List ℕ). x ∷ l) (take_all n xs (omega (arith, p)))

-- The search finds the attribute whose name is given.
get_enum_lem :
    (attr : AttrName) (c : ℕ)
    → attr_code attr ≡ some c
    → craypwr_attr_get_enum (attr_name attr) ≡ attr
unfolding craypwr_attr_get_enum search_name attr_name
get_enum_lem attr_pstate c p = refl
get_enum_lem attr_cstate c p = refl
get_enum_lem attr_cstate_limit c p = refl
get_enum_lem attr_sstate c p = refl
get_enum_lem attr_current c p = refl
get_enum_lem attr_voltage c p = refl
get_enum_lem attr_power c p = refl
get_enum_lem attr_power_limit_min c p = refl
get_enum_lem attr_power_limit_max c p = refl
get_enum_lem attr_freq c p = refl
get_enum_lem attr_freq_req c p = refl
get_enum_lem attr_freq_limit_min c p = refl
get_enum_lem attr_freq_limit_max c p = refl
get_enum_lem attr_energy c p = refl
get_enum_lem attr_temp c p = refl
get_enum_lem attr_os_id c p = refl
get_enum_lem attr_throttled_time c p = refl
get_enum_lem attr_throttled_count c p = refl
get_enum_lem attr_gov c p = refl
get_enum_lem num_attr_names c p = ground (arith, p)
get_enum_lem attr_invalid c p = ground (arith, p)
get_enum_lem attr_not_specified c p = ground (arith, p)

-- For an attribute in the range and a buffer that its name fits in with its end, CRAYPWR_AttrGetName
-- succeeds and stores a name for which CRAYPWR_AttrGetEnum gives the attribute.
pub get_enum-get_name :
    (attr : AttrName) (c n : ℕ)
    → attr_code attr ≡ some c
    → length (attr_name attr) ≤ n
    → (name : List ℕ) × ((craypwr_attr_get_name attr true (suc n) ≡ (ret_success, some name))
        × (craypwr_attr_get_enum name ≡ attr))
unfolding craypwr_attr_get_name
get_enum-get_name attr c n p fits =
    let whole : snprintf (suc n) (attr_name attr) ≡ attr_name attr =
      ap (λ k. take k (attr_name attr)) (omega arith) ∙ take_all n (attr_name attr) fits in
    (
      attr_name attr,
      (
        rw (p, craypwr_attr_get_name) (ap (λ (l : List ℕ). (ret_success, some l)) whole),
        get_enum_lem attr c p,
      ),
    )
