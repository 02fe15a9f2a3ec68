-- ===== src/Object/Formats.antt =====
-- lib/object.c: the formats of the descriptions.
use cray_pwrapi.Base.{
  ℕ, ◌+◌, ◌≤◌, ◌≡◌, refl, sym, ◌∙◌, List, [], ◌∷◌, ◌++◌, Bool, true, false, some, ◌==◌,
  if◌then◌else◌, length, length-append, Option-cases, inl, inr, arith,
}
use cray_pwrapi.Types.{
  AttrName, attr_pstate, attr_cstate, attr_cstate_limit, attr_sstate, attr_current, attr_voltage,
  attr_power, attr_power_limit_min, attr_power_limit_max, attr_freq, attr_freq_req,
  attr_freq_limit_min, attr_freq_limit_max, attr_energy, attr_temp, attr_os_id, attr_throttled_time,
  attr_throttled_count, attr_gov, num_attr_names, attr_invalid, attr_not_specified, ret_success,
  ret_out_of_range,
}
use cray_pwrapi.Object.Tree.{ObjType}
use cray_pwrapi.Object.Names.{attr_desc}
use cray_pwrapi.Object.Bits.{attr_code, validate_attr}
use cray_pwrapi.Object.Meta.{print_string}
use cray_pwrapi.Object.MetaApi.{is_not_specified}

-- Whether a format has a `%s`.
unfoldable pub has_conversion : List ℕ → Bool
has_conversion [] = false
has_conversion (c ∷ []) = false
has_conversion (c ∷ (d ∷ cs)) =
    let rest = has_conversion (d ∷ cs) in
    if c == b'%' then (if d == b's' then true else rest) else rest

-- The length of what is printed, and that the format has the two letters.
abbrev pub Printed : List ℕ → List ℕ → Type 0
Printed fmt s = (length (print_string fmt s) + 2 ≡ length fmt + length s) × (2 ≤ length fmt)

later-Printed :
    (c : ℕ) (fmt s : List ℕ)
    → Printed fmt s
    → (length (c ∷ print_string fmt s) + 2 ≡ length (c ∷ fmt) + length s) × (2 ≤ length (c ∷ fmt))
later-Printed c fmt s p = (omega (arith, p.0), omega (arith, p.1))

conversion-Printed :
    (c d : ℕ) (cs s : List ℕ) (percent letter : Bool)
    → (if percent
        then (if letter then true else has_conversion (d ∷ cs))
        else has_conversion (d ∷ cs))
      ≡ true
    → (has_conversion (d ∷ cs) ≡ true → Printed (d ∷ cs) s)
    → (length (
            if percent
            then (if letter then s ++ cs else c ∷ print_string (d ∷ cs) s)
            else c ∷ print_string (d ∷ cs) s)
          + 2
        ≡ length (c ∷ d ∷ cs) + length s)
      × (2 ≤ length (c ∷ d ∷ cs))
conversion-Printed c d cs s true true p later = (omega (arith, length-append s cs), omega arith)
conversion-Printed c d cs s true false p later = later-Printed c (d ∷ cs) s (later p)
conversion-Printed c d cs s false letter p later = later-Printed c (d ∷ cs) s (later p)

pub print_string-Printed : (fmt s : List ℕ) → has_conversion fmt ≡ true → Printed fmt s
unfolding has_conversion print_string
print_string-Printed [] s p = ground (arith, p)
print_string-Printed (c ∷ []) s p = ground (arith, p)
print_string-Printed (c ∷ (d ∷ cs)) s p =
    conversion-Printed c d cs s (c == b'%') (d == b's') p (print_string-Printed (d ∷ cs) s)

-- What an attribute in the range has.
pub in_range_lem :
    (attr : AttrName) (c : ℕ)
    → attr_code attr ≡ some c
    → (is_not_specified attr ≡ false) × (has_conversion (attr_desc attr) ≡ true)
unfolding has_conversion attr_desc
in_range_lem attr_pstate c p = (refl, refl)
in_range_lem attr_cstate c p = (refl, refl)
in_range_lem attr_cstate_limit c p = (refl, refl)
in_range_lem attr_sstate c p = (refl, refl)
in_range_lem attr_current c p = (refl, refl)
in_range_lem attr_voltage c p = (refl, refl)
in_range_lem attr_power c p = (refl, refl)
in_range_lem attr_power_limit_min c p = (refl, refl)
in_range_lem attr_power_limit_max c p = (refl, refl)
in_range_lem attr_freq c p = (refl, refl)
in_range_lem attr_freq_req c p = (refl, refl)
in_range_lem attr_freq_limit_min c p = (refl, refl)
in_range_lem attr_freq_limit_max c p = (refl, refl)
in_range_lem attr_energy c p = (refl, refl)
in_range_lem attr_temp c p = (refl, refl)
in_range_lem attr_os_id c p = (refl, refl)
in_range_lem attr_throttled_time c p = (refl, refl)
in_range_lem attr_throttled_count c p = (refl, refl)
in_range_lem attr_gov c p = (refl, refl)
in_range_lem num_attr_names c p = ground (arith, p)
in_range_lem attr_invalid c p = ground (arith, p)
in_range_lem attr_not_specified c p = ground (arith, p)

pub valid_code :
    (type : ObjType) (attr : AttrName)
    → validate_attr type attr ≡ ret_success
    → (c : ℕ) × (attr_code attr ≡ some c)
unfolding validate_attr
valid_code type attr v = elim (Option-cases (attr_code attr)) [
  | inr e ↦ e
  | inl e ↦
      let out : validate_attr type attr ≡ ret_out_of_range = rw (e, validate_attr) refl in
      ground (arith, sym out ∙ v)
]

pub throttled_time_length : length (attr_desc attr_throttled_time) ≡ 150
unfolding attr_desc
throttled_time_length = refl
