-- ===== src/Object/Flat.antt =====
-- lib/object.c, forward_attr_set_value: what it comes to on a whole tree. An attribute is set on the
-- nearest objects below that have a say in it, one after the other, and one code is made of theirs.
use cray_pwrapi.Base.{
  ℕ, zero, suc, Bool, true, false, ◌&&◌, ◌||◌, not, List, [], ◌∷◌, ◌++◌, ℤ, pos, negsuc, int_eq,
  if◌then◌else◌,
}
use cray_pwrapi.Types.{
  AttrName, attr_cstate_limit, attr_power, attr_power_limit_max, attr_freq, attr_freq_req,
  attr_freq_limit_min, attr_freq_limit_max, attr_energy, attr_temp, attr_os_id, attr_throttled_time,
  attr_gov, ret_success, ret_failure, ret_not_implemented, ret_read_only,
}
use cray_pwrapi.Object.Tree.{
  ObjType, obj_node, obj_socket, obj_core, obj_power_plane, obj_mem, obj_ht, object, Children,
  childless, sibling, Setter, Machine,
}

-- What an object does about an attribute: it says that it is only read, it sets it, it leaves it to
-- its children, or it has no attributes at all.
pub data Say (S : Type 0) : Type 0 where
  refused : Say S
  sets : Setter S → Say S
  passed : Say S
  ignored : Say S

module _ {S : Type 0} (m : Machine S) where
  abbrev pub node_say : AttrName → Say S
  node_say attr_os_id = refused
  node_say attr_power = refused
  node_say attr_energy = refused
  node_say _ = passed

  abbrev pub core_say : AttrName → Say S
  core_say attr_os_id = refused
  core_say attr_temp = refused
  core_say _ = passed

  abbrev pub limited_say : Say S → Setter S → AttrName → Say S
  limited_say temp set_limit attr_power_limit_max = sets set_limit
  limited_say temp set_limit attr_throttled_time = refused
  limited_say temp set_limit attr_temp = temp
  limited_say temp set_limit attr = node_say attr

  abbrev pub ht_say : AttrName → Say S
  ht_say attr_os_id = refused
  ht_say attr_freq = refused
  ht_say attr_cstate_limit = sets m.ht.set_cstate_limit
  ht_say attr_freq_req = sets m.ht.set_freq_req
  ht_say attr_freq_limit_min = sets m.ht.set_freq_limit_min
  ht_say attr_freq_limit_max = sets m.ht.set_freq_limit_max
  ht_say attr_gov = sets m.ht.set_governor
  ht_say _ = passed

  abbrev pub say : ObjType → AttrName → Say S
  say obj_node attr = node_say attr
  say obj_power_plane attr = node_say attr
  say obj_core attr = core_say attr
  say obj_socket attr = limited_say refused m.socket.set_power_limit_max attr
  say obj_mem attr = limited_say passed m.mem.set_power_limit_max attr
  say obj_ht attr = ht_say attr
  say _ attr = ignored

  -- The calls that the nearest objects make, in the order of the tree.
  abbrev pub Calls : Type 0
  Calls = List (S → ℤ × S)

  module _ (ipc : ℕ) (attr : AttrName) (value : ℕ) where
    abbrev pub calls_of : Say S → ℕ → Calls → Calls
    calls_of refused self below = (λ s. (ret_read_only, s)) ∷ []
    calls_of (sets set) self below = set self ipc value ∷ []
    calls_of passed self below = below
    calls_of ignored self below = []

    abbrev pub calls_below : Children → Calls
    calls_below childless = []
    calls_below (sibling (object type self os_id children) rest) =
        calls_of (say type attr) self (calls_below children) ++ calls_below rest

-- The calls made one after the other: their codes and the last state.
abbrev pub run_calls : {S : Type 0} → List (S → ℤ × S) → S → List ℤ × S
run_calls [] s = ([], s)
run_calls (call ∷ rest) s =
    let (code, s1) = call s in let (codes, s2) = run_calls rest s1 in (code ∷ codes, s2)

abbrev pub IsNoWarning : ℤ → Type 0
IsNoWarning (pos zero) = Unit
IsNoWarning (pos (suc n)) = ⊥
IsNoWarning (negsuc n) = Unit

-- The codes that are errors, without those that say the attribute is not implemented.
abbrev pub errors_in : List ℤ → List ℤ
errors_in [] = []
errors_in (pos n ∷ codes) = errors_in codes
errors_in (negsuc n ∷ codes) =
    if int_eq (negsuc n) ret_not_implemented then errors_in codes else negsuc n ∷ errors_in codes

abbrev pub any_implemented : List ℤ → Bool
any_implemented [] = false
any_implemented (code ∷ codes) = not (int_eq code ret_not_implemented) || any_implemented codes

abbrev pub all_same : ℤ → List ℤ → Bool
all_same e [] = true
all_same e (x ∷ xs) = int_eq x e && all_same e xs

-- Not implemented where no call implements the attribute, success where none of them fails, the
-- error that they agree on, and a plain failure where they do not agree.
abbrev pub agree : Bool → List ℤ → ℤ
agree implemented [] = if implemented then ret_success else ret_not_implemented
agree implemented (e ∷ es) = if all_same e es then e else ret_failure

abbrev pub verdict : List ℤ → ℤ
verdict codes = agree (any_implemented codes) (errors_in codes)
