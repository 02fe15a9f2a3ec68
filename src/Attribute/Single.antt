-- ===== src/Attribute/Single.antt =====
-- lib/attributes.c: one attribute of one object, and many attributes of one object. `values` and `ts`
-- are arrays of 8 bytes each, from the index to what stands there; `none` is a value that was never
-- written.
use cray_pwrapi.Base.{
  ℕ, zero, suc, ◌+◌, Bool, not, ◌||◌, Option, none, some, ℤ, pos, int_eq, if◌then◌else◌, update,
  is_some,
}
use cray_pwrapi.Types.{AttrName, ret_success, ret_failure}
use cray_pwrapi.Glib.Sequence.{Sequence}
use cray_pwrapi.Glib.HashTable.{HashTable}
use cray_pwrapi.Opaque.Key.{opaque_get_context_key, opaque_get_data_key}
use cray_pwrapi.Opaque.Map.{opaque_object, opaque_context, opaque_map_lookup_type}
use cray_pwrapi.Object.Tree.{Machine, Reading, pwr_tspec_to_nsec}
use cray_pwrapi.Object.Values.{unread, obj_get_value, obj_set_value}
use cray_pwrapi.Attribute.Status.{
  Library, find_status_by_opaque, check_status_context, push_status_error, clear_status,
}

abbrev pub Memory : Type 0
Memory = ℕ → Option ℕ

-- A store through a pointer to the element at an index, if there is one.
abbrev pub store_at : Memory → ℕ → Option ℕ → Memory
store_at memory i none = memory
store_at memory i (some v) = update memory i (some v)

module _ (g : Sequence) (h : HashTable ℕ ℕ) {S : Type 0} (m : Machine S) where
  -- The reading, before its timestamp is converted.
  unfoldable pub pwr_obj_attr_get_value : Library g h m → ℕ → AttrName → Reading S
  unfolding opaque_get_data_key obj_get_value
  pwr_obj_attr_get_value l object attr =
      elim (opaque_map_lookup_type h (some l.world.map) (opaque_get_data_key object)
        opaque_object) [
          | none ↦ unread m ret_failure l.machine
          | some obj ↦ obj_get_value m (l.objects obj) attr l.machine
        ]

  -- What the call above leaves in the element of `ts`: the time of a successful reading.
  unfoldable pub put_time : Memory → ℕ → Reading S → Memory
  unfolding pwr_tspec_to_nsec
  put_time ts i r =
      if int_eq r.code ret_success
      then update ts i (elim r.tspec [ none ↦ none | some t ↦ some (pwr_tspec_to_nsec t) ])
      else ts

  unfoldable pub pwr_obj_attr_set_value : Library g h m → ℕ → AttrName → ℕ → ℤ × S
  unfolding opaque_get_context_key opaque_get_data_key obj_set_value
  pwr_obj_attr_set_value l object attr value =
      elim (opaque_map_lookup_type h (some l.world.map) (opaque_get_context_key object)
        opaque_context) [
          | none ↦ (ret_failure, l.machine)
          | some context ↦
              elim (opaque_map_lookup_type h (some l.world.map) (opaque_get_data_key object)
                opaque_object) [
                  | none ↦ (ret_failure, l.machine)
                  | some obj ↦ obj_set_value m (l.objects obj) (l.ipc context) attr value l.machine
                ]
        ]

  -- What a loop of PWR_*AttrGetValue* keeps: the arrays, `ts` if it is not NULL, and `retval`.
  pub record Getting : Type 0 where
    pub library : Library g h m
    pub values : Memory
    pub ts : Option Memory
    pub retval : ℤ

  unfoldable pub note_error :
      Library g h m → Option ℕ → Option ℕ → AttrName → ℕ → ℤ → ℤ → ℤ × Library g h m
  unfolding push_status_error
  note_error l stat obj attr index errcode retval =
      if int_eq errcode ret_success then (retval, l) else (
        ret_failure,
        (push_status_error g h m l stat
            (record { obj = obj; name = attr; index = index; error = errcode })).1,
      )

  abbrev pub time_one : Option Memory → ℕ → Reading S → Option Memory
  time_one none i r = none
  time_one (some ts) i r = some (put_time ts i r)

  -- The round of index `i` goes on with the reading: it is stored, or the error pushed.
  unfoldable pub keep_reading : Getting → Option ℕ → Option ℕ → AttrName → ℕ → Reading S → Getting
  unfolding put_time note_error
  keep_reading s stat obj attr i r =
      let (retval, library) =
        note_error (record s.library { machine = r.machine }) stat obj attr i r.code s.retval in
      record {
        library = library;
        values = store_at s.values i r.value;
        ts = time_one s.ts i r;
        retval = retval;
      }

  unfoldable pub get_round : Getting → Option ℕ → ℕ → AttrName → ℕ → Getting
  unfolding pwr_obj_attr_get_value keep_reading
  get_round s stat object attr i =
      keep_reading s stat (some object) attr i (pwr_obj_attr_get_value s.library object attr)

  unfoldable pub get_loop : ℕ → ℕ → Getting → Option ℕ → ℕ → (ℕ → AttrName) → Getting
  unfolding get_round
  get_loop zero i s stat object attrs = s
  get_loop (suc n) i s stat object attrs =
      get_loop n (i + 1) (get_round s stat object (attrs i) i) stat object attrs

  -- The status of a call, unless it is of another context.
  unfoldable pub usable_status : Library g h m → ℕ → ℕ → Bool
  unfolding find_status_by_opaque check_status_context
  usable_status l status obj_or_grp =
      not (is_some (find_status_by_opaque g h m l status))
      || check_status_context g h m status obj_or_grp

  -- The state where the loops start.
  unfoldable pub get_start : Library g h m → ℕ → Memory → Option Memory → Getting
  unfolding find_status_by_opaque clear_status
  get_start l status values ts = record {
    library = clear_status g h m l (find_status_by_opaque g h m l status);
    values = values;
    ts = ts;
    retval = ret_success;
  }

  unfoldable pub pwr_obj_attr_get_values :
      Library g h m
      → ℕ
      → ℤ
      → Option (ℕ → AttrName)
      → Option Memory
      → Option Memory
      → ℕ
      → ℤ × Library g h m × Option Memory × Option Memory
  unfolding get_loop usable_status get_start find_status_by_opaque
  pwr_obj_attr_get_values l object (pos n) (some attrs) (some values) ts status =
      if usable_status l status object
      then (let s =
            get_loop n 0 (get_start l status values ts) (find_status_by_opaque g h m l status)
              object attrs in
          (s.retval, s.library, some s.values, s.ts))
      else (ret_failure, l, some values, ts)
  pwr_obj_attr_get_values l object count attrs values ts status = (ret_failure, l, values, ts)

  -- The round of index `i` of PWR_ObjAttrSetValues, which pushes the index 0.
  unfoldable pub set_round : ℤ × Library g h m → Option ℕ → ℕ → AttrName → ℕ → ℕ → ℤ × Library g h m
  unfolding pwr_obj_attr_set_value note_error
  set_round (retval, l) stat object attr value index =
      let (errcode, machine) = pwr_obj_attr_set_value l object attr value in
      note_error (record l { machine = machine }) stat (some object) attr index errcode retval

  unfoldable pub set_loop :
      ℕ → ℕ → ℤ × Library g h m → Option ℕ → ℕ → (ℕ → AttrName) → (ℕ → ℕ) → ℤ × Library g h m
  unfolding set_round
  set_loop zero i s stat object attrs values = s
  set_loop (suc n) i s stat object attrs values =
      set_loop n (i + 1) (set_round s stat object (attrs i) (values i) 0) stat object attrs values

  unfoldable pub pwr_obj_attr_set_values :
      Library g h m → ℕ → ℤ → Option (ℕ → AttrName) → Option (ℕ → ℕ) → ℕ → ℤ × Library g h m
  unfolding set_loop usable_status clear_status find_status_by_opaque
  pwr_obj_attr_set_values l object (pos n) (some attrs) (some values) status =
      if usable_status l status object
      then (let stat = find_status_by_opaque g h m l status in
          set_loop n 0 (ret_success, clear_status g h m l stat) stat object attrs values)
      else (ret_failure, l)
  pwr_obj_attr_set_values l object count attrs values status = (ret_failure, l)
