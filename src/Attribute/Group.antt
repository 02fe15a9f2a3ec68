-- ===== src/Attribute/Group.antt =====
-- lib/attributes.c: one or many attributes of all objects of a group. The objects of the group are
-- taken by their index; the variable for the reference of an object is not initialised.
use cray_pwrapi.Base.{
  ℕ, zero, suc, ◌+◌, Option, none, some, ℤ, pos, negsuc, int_eq, if◌then◌else◌, Outcome, ret, fault,
  ◌>>=◌,
}
use cray_pwrapi.Types.{AttrName, ret_success, ret_failure, ret_invalid}
use cray_pwrapi.Glib.Sequence.{Sequence}
use cray_pwrapi.Glib.HashTable.{HashTable}
use cray_pwrapi.Group.Calls.{pwr_grp_get_num_objs, pwr_grp_get_obj_by_indx}
use cray_pwrapi.Object.Tree.{Machine}
use cray_pwrapi.Attribute.Status.{Library, find_status_by_opaque, clear_status}
use cray_pwrapi.Attribute.Single.{
  Memory, Getting, note_error, get_round, usable_status, get_start, set_round,
}

module _ (g : Sequence) (h : HashTable ℕ ℕ) {S : Type 0} (m : Machine S) where
  -- What a call gives back: the code, the memory, and the arrays.
  abbrev pub Answer : Type 0
  Answer = ℤ × Library g h m × Option Memory × Option Memory

  abbrev pub answer : Getting g h m → Answer
  answer s = (s.retval, s.library, some s.values, s.ts)

  -- An object that is not found: only the error is kept.
  unfoldable pub skip_round : Getting g h m → Option ℕ → Option ℕ → AttrName → ℕ → ℤ → Getting g h m
  unfolding note_error
  skip_round s stat obj attr i errcode =
      let (retval, library) = note_error g h m s.library stat obj attr i errcode s.retval in
      record s { retval = retval; library = library }

  -- One index of PWR_GrpAttrGetValue.
  unfoldable pub grp_get_round :
      Getting g h m → Option ℕ → AttrName → ℕ → ℤ → Option ℕ → Outcome (Getting g h m)
  unfolding skip_round get_round
  grp_get_round s stat attr i errcode obj =
      if int_eq errcode ret_success
      then elim obj [ none ↦ fault | some object ↦ ret (get_round g h m s stat object attr i) ]
      else ret (skip_round s stat obj attr i errcode)

  unfoldable pub grp_get_loop :
      ℕ → ℕ → Getting g h m → Option ℕ → ℕ → AttrName → Outcome (Getting g h m)
  unfolding pwr_grp_get_obj_by_indx grp_get_round
  grp_get_loop zero i s stat group attr = ret s
  grp_get_loop (suc n) i s stat group attr = do
    (errcode, obj) ← pwr_grp_get_obj_by_indx g h s.library.world group (pos i)
    s1 ← grp_get_round s stat attr i errcode obj
    grp_get_loop n (i + 1) s1 stat group attr

  unfoldable pub pwr_grp_attr_get_value :
      Library g h m → ℕ → AttrName → Option Memory → Option Memory → ℕ → Outcome Answer
  unfolding usable_status get_start find_status_by_opaque pwr_grp_get_num_objs grp_get_loop
  pwr_grp_attr_get_value l group attr none ts status = ret (ret_failure, l, none, ts)
  pwr_grp_attr_get_value l group attr (some values) ts status =
      let s = get_start g h m l status values ts in
      if usable_status g h m l status group
      then (do
        num_objs ← pwr_grp_get_num_objs g h s.library.world group
        elim num_objs [
          | negsuc n ↦ ret (ret_invalid, s.library, some values, ts)
          | pos n ↦ do
            s1 ← grp_get_loop n 0 s (find_status_by_opaque g h m l status) group attr
            ret (answer s1)
        ])
      else ret (ret_failure, l, some values, ts)

  -- One index of PWR_GrpAttrSetValue, which pushes the index 0.
  unfoldable pub grp_set_round :
      ℤ × Library g h m → Option ℕ → AttrName → ℕ → ℤ → Option ℕ → Outcome (ℤ × Library g h m)
  unfolding note_error set_round
  grp_set_round (retval, l) stat attr value errcode obj =
      if int_eq errcode ret_success
      then elim obj [
        | none ↦ fault
        | some object ↦ ret (set_round g h m (retval, l) stat object attr value 0)
      ]
      else ret (note_error g h m l stat obj attr 0 errcode retval)

  unfoldable pub grp_set_loop :
      ℕ → ℕ → ℤ × Library g h m → Option ℕ → ℕ → AttrName → ℕ → Outcome (ℤ × Library g h m)
  unfolding pwr_grp_get_obj_by_indx grp_set_round
  grp_set_loop zero i s stat group attr value = ret s
  grp_set_loop (suc n) i s stat group attr value = do
    (errcode, obj) ← pwr_grp_get_obj_by_indx g h s.1.world group (pos i)
    s1 ← grp_set_round s stat attr value errcode obj
    grp_set_loop n (i + 1) s1 stat group attr value

  unfoldable pub pwr_grp_attr_set_value :
      Library g h m → ℕ → AttrName → Option ℕ → ℕ → Outcome (ℤ × Library g h m)
  unfolding usable_status clear_status find_status_by_opaque pwr_grp_get_num_objs grp_set_loop
  pwr_grp_attr_set_value l group attr none status = ret (ret_failure, l)
  pwr_grp_attr_set_value l group attr (some value) status =
      let stat = find_status_by_opaque g h m l status in
      let l1 = clear_status g h m l stat in
      if usable_status g h m l status group
      then (do
        num_objs ← pwr_grp_get_num_objs g h l1.world group
        elim num_objs [
          | negsuc n ↦ ret (ret_invalid, l1)
          | pos n ↦ grp_set_loop n 0 (ret_success, l1) stat group attr value
        ])
      else ret (ret_failure, l)

  -- One attribute of PWR_GrpAttrGetValues: `obj` is the reference of the object where its code is a
  -- success, and the error of an object that is not found has the reference NULL.
  unfoldable pub grp_get_one :
      Getting g h m → Option ℕ → ℤ → Option ℕ → AttrName → ℕ → Outcome (Getting g h m)
  unfolding skip_round get_round
  grp_get_one s stat grperrcode obj attr offset =
      if int_eq grperrcode ret_success
      then elim obj [ none ↦ fault | some object ↦ ret (get_round g h m s stat object attr offset) ]
      else ret (skip_round s stat (some 0) attr offset grperrcode)

  -- The inner loop, from the attribute `j` on.
  unfoldable pub grp_get_inner :
      ℕ → ℕ → ℕ → Getting g h m → Option ℕ → ℤ → Option ℕ → (ℕ → AttrName) → Outcome (Getting g h m)
  unfolding grp_get_one
  grp_get_inner zero j offset s stat grperrcode obj attrs = ret s
  grp_get_inner (suc n) j offset s stat grperrcode obj attrs = do
    s1 ← grp_get_one s stat grperrcode obj (attrs j) offset
    grp_get_inner n (j + 1) (offset + 1) s1 stat grperrcode obj attrs

  unfoldable pub grp_get_outer :
      ℕ → ℕ → ℕ → Getting g h m → Option ℕ → ℕ → ℕ → (ℕ → AttrName) → Outcome (Getting g h m)
  unfolding pwr_grp_get_obj_by_indx grp_get_inner
  grp_get_outer zero i offset s stat group count attrs = ret s
  grp_get_outer (suc n) i offset s stat group count attrs = do
    (grperrcode, obj) ← pwr_grp_get_obj_by_indx g h s.library.world group (pos i)
    s1 ← grp_get_inner count 0 offset s stat grperrcode obj attrs
    grp_get_outer n (i + 1) (offset + count) s1 stat group count attrs

  unfoldable pub pwr_grp_attr_get_values :
      Library g h m
      → ℕ
      → ℤ
      → Option (ℕ → AttrName)
      → Option Memory
      → Option Memory
      → ℕ
      → Outcome Answer
  unfolding usable_status get_start find_status_by_opaque pwr_grp_get_num_objs grp_get_outer
  pwr_grp_attr_get_values l group (pos count) (some attrs) (some values) ts status =
      let s = get_start g h m l status values ts in
      if usable_status g h m l status group
      then (do
        num_objs ← pwr_grp_get_num_objs g h s.library.world group
        elim num_objs [
          | negsuc n ↦ ret (ret_invalid, s.library, some values, ts)
          | pos n ↦ do
            s1 ← grp_get_outer n 0 0 s (find_status_by_opaque g h m l status) group count attrs
            ret (answer s1)
        ])
      else ret (ret_failure, l, some values, ts)
  pwr_grp_attr_get_values l group count attrs values ts status = ret (ret_failure, l, values, ts)

  -- One attribute of PWR_GrpAttrSetValues.
  unfoldable pub grp_set_one :
      ℤ × Library g h m → Option ℕ → ℤ → Option ℕ → AttrName → ℕ → ℕ → Outcome (ℤ × Library g h m)
  unfolding note_error set_round
  grp_set_one (retval, l) stat grperrcode obj attr value j =
      if int_eq grperrcode ret_success
      then elim obj [
        | none ↦ fault
        | some object ↦ ret (set_round g h m (retval, l) stat object attr value j)
      ]
      else ret (note_error g h m l stat (some 0) attr j grperrcode retval)

  unfoldable pub grp_set_inner :
      ℕ
      → ℕ
      → ℤ × Library g h m
      → Option ℕ
      → ℤ
      → Option ℕ
      → (ℕ → AttrName)
      → (ℕ → ℕ)
      → Outcome (ℤ × Library g h m)
  unfolding grp_set_one
  grp_set_inner zero j s stat grperrcode obj attrs values = ret s
  grp_set_inner (suc n) j s stat grperrcode obj attrs values = do
    s1 ← grp_set_one s stat grperrcode obj (attrs j) (values j) j
    grp_set_inner n (j + 1) s1 stat grperrcode obj attrs values

  unfoldable pub grp_set_outer :
      ℕ
      → ℕ
      → ℤ × Library g h m
      → Option ℕ
      → ℕ
      → ℕ
      → (ℕ → AttrName)
      → (ℕ → ℕ)
      → Outcome (ℤ × Library g h m)
  unfolding pwr_grp_get_obj_by_indx grp_set_inner
  grp_set_outer zero i s stat group count attrs values = ret s
  grp_set_outer (suc n) i s stat group count attrs values = do
    (grperrcode, obj) ← pwr_grp_get_obj_by_indx g h s.1.world group (pos i)
    s1 ← grp_set_inner count 0 s stat grperrcode obj attrs values
    grp_set_outer n (i + 1) s1 stat group count attrs values

  unfoldable pub pwr_grp_attr_set_values :
      Library g h m
      → ℕ
      → ℤ
      → Option (ℕ → AttrName)
      → Option (ℕ → ℕ)
      → ℕ
      → Outcome (ℤ × Library g h m)
  unfolding usable_status clear_status find_status_by_opaque pwr_grp_get_num_objs grp_set_outer
  pwr_grp_attr_set_values l group (pos count) (some attrs) (some values) status =
      let stat = find_status_by_opaque g h m l status in
      let l1 = clear_status g h m l stat in
      if usable_status g h m l status group
      then (do
        num_objs ← pwr_grp_get_num_objs g h l1.world group
        elim num_objs [
          | negsuc n ↦ ret (ret_invalid, l1)
          | pos n ↦ grp_set_outer n 0 (ret_success, l1) stat group count attrs values
        ])
      else ret (ret_failure, l)
  pwr_grp_attr_set_values l group count attrs values status = ret (ret_failure, l)
