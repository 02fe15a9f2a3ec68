-- ===== src/Attribute/Reports.antt =====
-- lib/attributes.c, PWR_ObjAttrGetValues: what the call leaves in the arrays and in the status, from
-- the readings that it makes.
use cray_pwrapi.Base.{
  ℕ, zero, suc, ◌+◌, ◌≡◌, refl, ap, ◌∙◌, List, [], ◌∷◌, ◌++◌, Bool, true, false, ◌&&◌, Option, none,
  some, ℤ, int_eq, if◌then◌else◌, update, Bool-cases, Option-cases, inl, inr,
}
use cray_pwrapi.Types.{AttrName, ret_success, ret_failure}
use cray_pwrapi.Glib.Sequence.{Sequence}
use cray_pwrapi.Glib.HashTable.{HashTable}
use cray_pwrapi.Object.Tree.{Machine, Reading}
use cray_pwrapi.Attribute.Status.{Library, AccessError, push_status_error}
use cray_pwrapi.Attribute.Single.{
  Memory, store_at, pwr_obj_attr_get_value, put_time, time_one, Getting, note_error, keep_reading,
  get_round, get_loop,
}

abbrev pub Queues : Type 0
Queues = ℕ → Option (List AccessError)

-- One error more in the queue of a status, if there is one.
abbrev pub append_error : Queues → Option ℕ → AccessError → Queues
append_error q none e = q
append_error q (some stat) e = elim (q stat) [
  | none ↦ q
  | some list ↦ update q stat (some (list ++ e ∷ []))
]

abbrev pub append_errors : Queues → Option ℕ → List AccessError → Queues
append_errors q stat [] = q
append_errors q stat (e ∷ es) = append_errors (append_error q stat e) stat es

same_if : (b : Bool) (x : ℤ) → (if b then x else x) ≡ x
same_if true x = refl
same_if false x = refl

module _ {S : Type 0} where
  abbrev pub succeeds : Reading S → Bool
  succeeds r = int_eq r.code ret_success

  abbrev pub all_succeed : List (Reading S) → Bool
  all_succeed [] = true
  all_succeed (r ∷ rs) = succeeds r && all_succeed rs

  -- The machine after the readings.
  abbrev pub machine_after : S → List (Reading S) → S
  machine_after s [] = s
  machine_after s (r ∷ rs) = machine_after r.machine rs

  -- The errors of the readings from the index `i` on, in their order.
  abbrev pub errors_of : (ℕ → ℕ) → (ℕ → AttrName) → ℕ → List (Reading S) → List AccessError
  errors_of object attrs i [] = []
  errors_of object attrs i (r ∷ rs) =
      if succeeds r
      then errors_of object attrs (i + 1) rs
      else record { obj = some (object i); name = attrs i; index = i; error = r.code }
        ∷ errors_of object attrs (i + 1) rs

  -- An array that every reading writes at its index.
  abbrev pub fill : (Memory → ℕ → Reading S → Memory) → Memory → ℕ → List (Reading S) → Memory
  fill put memory i [] = memory
  fill put memory i (r ∷ rs) = fill put (put memory i r) (i + 1) rs

  abbrev pub store_value : Memory → ℕ → Reading S → Memory
  store_value values i r = store_at values i r.value

module _ (g : Sequence) (h : HashTable ℕ ℕ) {S : Type 0} (m : Machine S) where
  -- `n` readings one after the other, the attribute of the first at the index `i`.
  abbrev pub readings : Library g h m → (ℕ → ℕ) → (ℕ → AttrName) → ℕ → ℕ → S → List (Reading S)
  readings l object attrs zero i s = []
  readings l object attrs (suc n) i s =
      let r = pwr_obj_attr_get_value g h m (record l { machine = s }) (object i) (attrs i) in
      r ∷ readings l object attrs n (i + 1) r.machine

  abbrev pub time_each : Option Memory → ℕ → List (Reading S) → Option Memory
  time_each none i rs = none
  time_each (some ts) i rs = some (fill (put_time g h m) ts i rs)

  push-append :
      (l : Library g h m) (stat : Option ℕ) (e : AccessError)
      → ((s : S) → m.malloc s ≡ true)
      → (push_status_error g h m l stat e).1 ≡ record l { queues = append_error l.queues stat e }
  unfolding push_status_error
  push-append l none e works = refl
  push-append l (some stat) e works = elim (Option-cases (l.queues stat)) [
    | inl y ↦
        let pushed : (push_status_error g h m l (some stat) e).1 ≡ l =
          rw (y, push_status_error) refl in
        let appended : l.queues ≡ append_error l.queues (some stat) e = rw (y, append_error) refl in
        pushed ∙ ap (λ (q : Queues). record l { queues = q }) appended
    | inr (list, y) ↦
        let pushed : (push_status_error g h m l (some stat) e).1
            ≡ record l { queues = update l.queues stat (some (list ++ e ∷ [])) } =
          rw (y, push_status_error) (rw (works l.machine) refl) in
        let appended : update l.queues stat (some (list ++ e ∷ []))
            ≡ append_error l.queues (some stat) e =
          rw (y, append_error) refl in
        pushed ∙ ap (λ (q : Queues). record l { queues = q }) appended
  ]

  -- What a loop holds: `l` with the machine and the queues of the moment.
  abbrev pub getting : Library g h m → S → Queues → Memory → Option Memory → ℤ → Getting g h m
  getting l s q values ts retval = record {
    library = record l { machine = s; queues = q };
    values = values;
    ts = ts;
    retval = retval;
  }

  abbrev pub reading_at : Library g h m → ℕ → AttrName → S → Reading S
  reading_at l object attr s = pwr_obj_attr_get_value g h m (record l { machine = s }) object attr

  abbrev pub queues_after : Queues → Option ℕ → Option ℕ → AttrName → ℕ → Reading S → Queues
  queues_after q stat obj attr i r =
      if succeeds r
      then q
      else append_error q stat (record { obj = obj; name = attr; index = i; error = r.code })

  pub keep_reading_lem :
      (l : Library g h m) (works : (s : S) → m.malloc s ≡ true) (stat obj : Option ℕ)
      (attr : AttrName) (i : ℕ) (s : S) (q : Queues) (values : Memory) (ts : Option Memory)
      (retval : ℤ) (r : Reading S)
      → keep_reading g h m (getting l s q values ts retval) stat obj attr i r
        ≡ getting l r.machine
            (queues_after q stat obj attr i r)
            (store_at values i r.value)
            (time_one g h m ts i r)
            (if succeeds r then retval else ret_failure)
  unfolding keep_reading note_error
  keep_reading_lem l works stat obj attr i s q values ts retval r = elim (Bool-cases (succeeds r)) [
    | inl y ↦ rw (y) refl
    | inr y ↦ rw (y) (
        rw
          (push-append (record l { machine = r.machine; queues = q }) stat
            (record { obj = obj; name = attr; index = i; error = r.code }) works)
          refl)
  ]

  -- A reading and those after it, put together.
  one_more :
      (l : Library g h m) (stat : Option ℕ) (object : ℕ → ℕ) (attrs : ℕ → AttrName) (i : ℕ) (s : S)
      (q : Queues) (values : Memory) (ts : Option Memory) (retval : ℤ) (r : Reading S)
      (rs : List (Reading S))
      → getting l
          (machine_after r.machine rs)
          (append_errors
            (queues_after q stat (some (object i)) (attrs i) i r)
            stat
            (errors_of object attrs (i + 1) rs))
          (fill store_value (store_at values i r.value) (i + 1) rs)
          (time_each (time_one g h m ts i r) (i + 1) rs)
          (if all_succeed rs then (if succeeds r then retval else ret_failure) else ret_failure)
        ≡ getting l
            (machine_after s (r ∷ rs))
            (append_errors q stat (errors_of object attrs i (r ∷ rs)))
            (fill store_value values i (r ∷ rs))
            (time_each ts i (r ∷ rs))
            (if all_succeed (r ∷ rs) then retval else ret_failure)
  one_more l stat object attrs i s q values none retval r rs = elim (Bool-cases (succeeds r)) [
    | inl y ↦ rw (y) refl
    | inr y ↦ rw (y) (rw (same_if (all_succeed rs) ret_failure) refl)
  ]
  one_more l stat object attrs i s q values (some ts) retval r rs = elim (Bool-cases (succeeds r)) [
    | inl y ↦ rw (y) refl
    | inr y ↦ rw (y) (rw (same_if (all_succeed rs) ret_failure) refl)
  ]

  -- The rounds from the index `i` on, each with an object and an attribute of its own.
  abbrev pub sweep : ℕ → ℕ → Getting g h m → Option ℕ → (ℕ → ℕ) → (ℕ → AttrName) → Getting g h m
  sweep zero i s stat object attrs = s
  sweep (suc n) i s stat object attrs =
      sweep n (i + 1) (get_round g h m s stat (object i) (attrs i) i) stat object attrs

  pub sweep_reports :
      (l : Library g h m) (works : (s : S) → m.malloc s ≡ true) (stat : Option ℕ) (object : ℕ → ℕ)
      (attrs : ℕ → AttrName) (n i : ℕ) (s : S) (q : Queues) (values : Memory) (ts : Option Memory)
      (retval : ℤ)
      → (let rs = readings l object attrs n i s in
          sweep n i (getting l s q values ts retval) stat object attrs
          ≡ getting l
              (machine_after s rs)
              (append_errors q stat (errors_of object attrs i rs))
              (fill store_value values i rs)
              (time_each ts i rs)
              (if all_succeed rs then retval else ret_failure))
  unfolding get_round
  sweep_reports l works stat object attrs zero i s q values none retval = refl
  sweep_reports l works stat object attrs zero i s q values (some ts) retval = refl
  sweep_reports l works stat object attrs (suc n) i s q values ts retval =
      let r = reading_at l (object i) (attrs i) s in
      ap (λ (x : Getting g h m). sweep n (i + 1) x stat object attrs)
        (keep_reading_lem l works stat (some (object i)) (attrs i) i s q values ts retval r)
      ∙ sweep_reports l works stat object attrs n (i + 1) r.machine
          (queues_after q stat (some (object i)) (attrs i) i r) (store_at values i r.value)
          (time_one g h m ts i r) (if succeeds r then retval else ret_failure)
      ∙ one_more l stat object attrs i r.machine q values ts retval r
          (readings l object attrs n (i + 1) r.machine)

  pub get_loop-sweep :
      (n i : ℕ) (s : Getting g h m) (stat : Option ℕ) (object : ℕ) (attrs : ℕ → AttrName)
      → get_loop g h m n i s stat object attrs ≡ sweep n i s stat (λ k. object) attrs
  unfolding get_loop
  get_loop-sweep zero i s stat object attrs = refl
  get_loop-sweep (suc n) i s stat object attrs =
      get_loop-sweep n (i + 1) (get_round g h m s stat object (attrs i) i) stat object attrs
