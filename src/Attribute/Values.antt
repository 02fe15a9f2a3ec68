-- ===== src/Attribute/Values.antt =====
-- lib/attributes.c, PWR_ObjAttrGetValues: the theorem on a whole call.
use cray_pwrapi.Base.{
  ℕ, ◌≡◌, refl, ap, ◌∙◌, List, [], true, false, Option, none, some, ℤ, pos, if◌then◌else◌, update,
  update_self, update_ne, get_elem?, ◌==◌, arith, Option-cases, Bool-cases, is_some, inl, inr,
}
use cray_pwrapi.Types.{AttrName, ret_success, ret_failure}
use cray_pwrapi.Glib.Sequence.{Sequence}
use cray_pwrapi.Glib.HashTable.{HashTable}
use cray_pwrapi.Object.Tree.{Machine, Reading}
use cray_pwrapi.Attribute.Status.{Library, find_status_by_opaque, clear_status}
use cray_pwrapi.Attribute.Single.{
  Memory, put_time, Getting, get_start, get_loop, usable_status, pwr_obj_attr_get_values,
}
use cray_pwrapi.Attribute.Reports.{
  Queues, append_errors, all_succeed, machine_after, errors_of, fill, store_value, succeeds,
  getting, readings, time_each, sweep, sweep_reports, get_loop-sweep,
}
use cray_pwrapi.Attribute.Queue.{cleared, reported, append-cleared}
use cray_pwrapi.Attribute.Fill.{time_at, after_each, value_after, time_after, fill-at}

module _ (g : Sequence) (h : HashTable ℕ ℕ) {S : Type 0} (m : Machine S) where
  clear-cleared :
      (l : Library g h m) (stat : Option ℕ)
      → clear_status g h m l stat ≡ record l { queues = cleared l.queues stat }
  unfolding clear_status
  clear-cleared l none = refl
  clear-cleared l (some stat) = elim (Option-cases (l.queues stat)) [
    | inl y ↦
        let same : clear_status g h m l (some stat) ≡ l = rw (y, clear_status) refl in
        let kept : l.queues ≡ cleared l.queues (some stat) = rw (y, cleared) refl in
        same ∙ ap (λ (q : Queues). record l { queues = q }) kept
    | inr (old, y) ↦
        let emptied : clear_status g h m l (some stat)
            ≡ record l { queues = update l.queues stat (some []) } =
          rw (y, clear_status) refl in
        let kept : update l.queues stat (some []) ≡ cleared l.queues (some stat) =
          rw (y, cleared) refl in
        emptied ∙ ap (λ (q : Queues). record l { queues = q }) kept
  ]

  -- What the call leaves, by the readings `rs` that it makes: the code, the errors of the readings
  -- that fail as the only ones of the status, the values and the times that the readings give, each
  -- at its index, and the machine after them. The rest of the memory is as it was.
  pub record IsReported (l : Library g h m) (stat : Option ℕ) (object : ℕ → ℕ)
      (attrs : ℕ → AttrName) (values : Memory) (ts : Option Memory) (rs : List (Reading S))
      (code : ℤ) (l' : Library g h m) (values' : Memory) (ts' : Option Memory) : Type 0 where
    pub verdict : code ≡ (if all_succeed rs then ret_success else ret_failure)
    pub errors : (a : ℕ) → l'.queues a ≡ reported stat (errors_of object attrs 0 rs) l.queues a
    pub stored : (k : ℕ) → values' k ≡ after_each value_after (get_elem? rs k) (values k)
    pub timed :
        (k : ℕ)
        → time_at ts' k
          ≡ (if is_some ts then after_each time_after (get_elem? rs k) (time_at ts k) else none)
    pub machine : l'.machine ≡ machine_after l.machine rs
    pub kept :
        (l'.world ≡ l.world)
        × (l'.objects ≡ l.objects)
        × (l'.ipc ≡ l.ipc)
        × (l'.status_list ≡ l.status_list)

  put_time-at :
      (memory : Memory) (i : ℕ) (r : Reading S)
      → put_time g h m memory i r i ≡ time_after r (memory i)
  unfolding put_time
  put_time-at memory i r = elim (Bool-cases (succeeds r)) [
    | inl y ↦ rw y (update_self memory i _)
    | inr n ↦ rw n refl
  ]

  put_time-ne :
      (memory : Memory) (i k : ℕ) (r : Reading S)
      → (k == i) ≡ false
      → put_time g h m memory i r k ≡ memory k
  unfolding put_time
  put_time-ne memory i k r h = elim (Bool-cases (succeeds r)) [
    | inl y ↦ rw y (update_ne memory i k _ h)
    | inr n ↦ rw n refl
  ]

  store_value-at :
      (memory : Memory) (i : ℕ) (r : Reading S)
      → store_value memory i r i ≡ value_after r (memory i)
  store_value-at memory i r = elim (Option-cases r.value) [
    | inl n ↦ rw n refl
    | inr (v, y) ↦ rw y (update_self memory i (some v))
  ]

  store_value-ne :
      (memory : Memory) (i k : ℕ) (r : Reading S)
      → (k == i) ≡ false
      → store_value memory i r k ≡ memory k
  store_value-ne memory i k r h = elim (Option-cases r.value) [
    | inl n ↦ rw n refl
    | inr (v, y) ↦ rw y (update_ne memory i k (some v) h)
  ]

  times :
      (ts : Option Memory) (rs : List (Reading S)) (k : ℕ)
      → time_at (time_each g h m ts 0 rs) k
        ≡ (if is_some ts then after_each time_after (get_elem? rs k) (time_at ts k) else none)
  times none rs k = refl
  times (some ts) rs k =
      fill-at (put_time g h m) time_after put_time-at put_time-ne ts 0 k k rs (omega arith)

  module _ (l : Library g h m) (stat : Option ℕ) (object : ℕ → ℕ) (attrs : ℕ → AttrName) (n : ℕ)
      (values : Memory) (ts : Option Memory) where
    abbrev pub all_readings : List (Reading S)
    all_readings = readings g h m l object attrs n 0 l.machine

    -- What the loop holds at its end.
    abbrev pub swept : Getting g h m
    swept =
        getting g h m l (machine_after l.machine all_readings)
          (append_errors (cleared l.queues stat) stat (errors_of object attrs 0 all_readings))
          (fill store_value values 0 all_readings) (time_each g h m ts 0 all_readings)
          (if all_succeed all_readings then ret_success else ret_failure)

    pub swept-IsReported :
        IsReported l stat object attrs values ts all_readings swept.retval swept.library
          swept.values swept.ts
    swept-IsReported = record {
      verdict = refl;
      errors = append-cleared l.queues stat (errors_of object attrs 0 all_readings);
      stored = λ k.
          fill-at store_value value_after store_value-at store_value-ne values 0 k k all_readings
            (omega arith);
      timed = times ts all_readings;
      machine = refl;
      kept = (refl, refl, refl, refl);
    }

    pub starts_cleared :
        record {
          library = clear_status g h m l stat;
          values = values;
          ts = ts;
          retval = ret_success;
        }
        ≡ getting g h m l l.machine (cleared l.queues stat) values ts ret_success
    starts_cleared =
        ap
          (λ (l' : Library g h m). record {
            library = l';
            values = values;
            ts = ts;
            retval = ret_success;
          })
          (clear-cleared l stat)

    pub sweep-swept :
        ((s : S) → m.malloc s ≡ true)
        → sweep g h m n 0
            (getting g h m l l.machine (cleared l.queues stat) values ts ret_success)
            stat
            object
            attrs
          ≡ swept
    sweep-swept works =
        sweep_reports g h m l works stat object attrs n 0 l.machine (cleared l.queues stat) values
          ts ret_success

  -- Where malloc does not fail and the status is NULL or of the object's context:
  -- PWR_ObjAttrGetValues reads the attributes one after the other, goes on after an error, and
  -- succeeds exactly if every reading does. The status then holds the errors of the readings that
  -- fail, each with the index of its attribute and in their order, and no error of an earlier call;
  -- the arrays hold the values and the times that the readings give, each at its index, and keep
  -- what they held elsewhere. Nothing but that queue and the machine is changed.
  pub get_values-IsReported :
      (l : Library g h m) (object n : ℕ) (attrs : ℕ → AttrName) (values : Memory)
      (ts : Option Memory) (status : ℕ)
      → ((s : S) → m.malloc s ≡ true)
      → usable_status g h m l status object ≡ true
      → (code : ℤ) × (l' : Library g h m) × (values' : Memory) × (ts' : Option Memory)
        × (pwr_obj_attr_get_values g h m l object (pos n) (some attrs) (some values) ts status
            ≡ (code, l', some values', ts'))
        × IsReported l
            (find_status_by_opaque g h m l status)
            (λ k. object)
            attrs
            values
            ts
            (readings g h m l (λ k. object) attrs n 0 l.machine)
            code
            l'
            values'
            ts'
  unfolding pwr_obj_attr_get_values get_start
  get_values-IsReported l object n attrs values ts status works usable =
      let stat = find_status_by_opaque g h m l status in
      let q = cleared l.queues stat in
      let final : Getting g h m = swept l stat (λ k. object) attrs n values ts in
      let done =
        ap (λ (s : Getting g h m). get_loop g h m n 0 s stat object attrs)
          (starts_cleared l stat (λ k. object) attrs n values ts)
        ∙ get_loop-sweep g h m n 0 (getting g h m l l.machine q values ts ret_success) stat object
            attrs
        ∙ sweep-swept l stat (λ k. object) attrs n values ts works in
      (
        final.retval,
        final.library,
        final.values,
        final.ts,
        rw usable (ap (λ (s : Getting g h m). (s.retval, s.library, some s.values, s.ts)) done),
        swept-IsReported l stat (λ k. object) attrs n values ts,
      )
