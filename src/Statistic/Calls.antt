-- ===== src/Statistic/Calls.antt =====
-- lib/statistics.c: the calls on a statistic that exists. `clock` is what clock_gettime gives, if it
-- succeeds.
use cray_pwrapi.Base.{
  ℕ, ◌+◌, List, [], ◌∷◌, map, Bool, true, false, ◌&&◌, Option, none, some, ℤ, ◌==◌, if◌then◌else◌,
  update, Outcome, ret, fault,
}
use cray_pwrapi.Types.{
  AttrStat, stat_min, stat_max, stat_avg, stat_stdev, ret_success, ret_failure, ret_invalid,
}
use cray_pwrapi.Glib.HashTable.{HashTable}
use cray_pwrapi.Opaque.Key.{opaque_get_data_key}
use cray_pwrapi.Opaque.Map.{OpaqueMap, opaque_stat, opaque_map_lookup_type}
use cray_pwrapi.Object.Tree.{Timespec, pwr_tspec_to_nsec}
use cray_pwrapi.Statistic.Calculate.{Floats, Cell, Sample, Statistic, stop_thread, start_thread}

unfoldable pub get_current_time : Option Timespec → ℕ
unfolding pwr_tspec_to_nsec
get_current_time none = 0
get_current_time (some ts) = pwr_tspec_to_nsec ts

abbrev pub is_invalid : Statistic → Bool
is_invalid st = (st.obj == 0) && (st.grp == 0)

-- PWR_TimePeriod
pub record TimePeriod : Type 0 where
  pub start : ℕ
  pub stop : ℕ
  pub instant : ℕ

-- What PWR_StatGetReduce has stored through its pointers, and its variables.
pub record Reduction : Type 0 where
  pub result : ℕ
  pub index : Option ℕ
  pub instant : Option ℕ
  pub avgcnt : ℕ
  pub roll_mean : ℕ
  pub roll_sum : ℕ

abbrev pub select_if : Bool → ℕ → Cell → Reduction → Reduction
select_if false i c r = r
select_if true i c r = record r { result = c.value; index = some i; instant = some c.instant }

abbrev pub first_result : ℕ → Reduction
first_result v = record {
  result = v;
  index = none;
  instant = none;
  avgcnt = 0;
  roll_mean = 0;
  roll_sum = 0;
}

-- The end of a period that has not ended is now.
abbrev pub end_of : ℕ → ℕ → ℕ
end_of now stop = if stop == 0 then now else stop

-- The memory of the statistics.
abbrev pub StatMemory : Type 0
StatMemory = ℕ → Statistic

-- A call that changes the statistic.
abbrev pub change : (Statistic → ℤ × Statistic) → StatMemory → ℤ × Option ℕ → ℤ × StatMemory
change act stats (code, none) = (code, stats)
change act stats (code, some s) = let (status, st) = act (stats s) in (status, update stats s st)

abbrev pub timed : ℕ → ℕ → Cell → ℕ × TimePeriod
timed start stop c = (c.value, record { start = start; stop = stop; instant = c.instant })

module _ (h : HashTable ℕ ℕ) where
  -- The statistic of a reference: `none` where there is none, and where it is invalid.
  unfoldable pub usable : OpaqueMap h → StatMemory → ℕ → ℤ × Option ℕ
  unfolding opaque_get_data_key
  usable opaque_map stats stat_obj =
      elim (opaque_map_lookup_type h (some opaque_map) (opaque_get_data_key stat_obj) opaque_stat) [
        | none ↦ (ret_failure, none)
        | some s ↦ if is_invalid (stats s) then (ret_invalid, none) else (ret_success, some s)
      ]

module _ (f : Floats) where
  unfoldable pub start_reduction : AttrStat → Option Reduction
  start_reduction stat_min = some (first_result f.infinity)
  start_reduction stat_max = some (first_result f.neg_infinity)
  start_reduction stat_avg = some (first_result 0)
  start_reduction stat_stdev = some (first_result 0)
  start_reduction _ = none

  unfoldable pub reduce_cell : AttrStat → ℕ → Cell → Reduction → Reduction
  reduce_cell stat_min i c r = select_if (f.lt c.value r.result) i c r
  reduce_cell stat_max i c r = select_if (f.lt r.result c.value) i c r
  reduce_cell stat_avg i c r =
      let n = f.add (f.of_nat i) f.one in
      record r { avgcnt = n; result = f.add r.result (f.div (f.sub c.value r.result) n) }
  reduce_cell stat_stdev i c r =
      let n = f.add (f.of_nat i) f.one in
      let mean = f.add r.roll_mean (f.div (f.sub c.value r.roll_mean) n) in
      record r {
        avgcnt = n;
        roll_mean = mean;
        roll_sum = f.add r.roll_sum (f.mul (f.sub c.value mean) (f.sub c.value r.roll_mean));
      }
  reduce_cell _ i c r = r

  -- The loop, from an index on.
  unfoldable pub reduce_loop : AttrStat → ℕ → List Cell → Reduction → Reduction
  unfolding reduce_cell
  reduce_loop op i [] r = r
  reduce_loop op i (c ∷ cs) r = reduce_loop op (i + 1) cs (reduce_cell op i c r)

  -- The final standard deviation, by what the statistic is.
  unfoldable pub finish_reduction : AttrStat → Reduction → Reduction
  finish_reduction stat_stdev r = record r {
    result = f.sqrt (f.div r.roll_sum (f.sub r.avgcnt f.one));
  }
  finish_reduction _ r = r

  -- What PWR_StatStart and PWR_StatClear do to a statistic, with the round that may be in progress; the
  -- result of start_thread is not read.
  unfoldable pub begin_period : ℕ → Option (ℤ × List Sample) → Bool → Statistic → ℤ × Statistic
  unfolding start_thread
  begin_period now last created st =
      if now == 0
      then (ret_failure, record st { start = now })
      else (ret_success, (start_thread f last created (record st { start = now; stop = 0 })).1)

  unfoldable pub end_period : ℕ → Option (ℤ × List Sample) → Statistic → ℤ × Statistic
  unfolding stop_thread
  end_period now last st =
      if now == 0
      then (ret_failure, record st { stop = now })
      else (ret_success, stop_thread f last (record st { stop = now }))

  module _ (h : HashTable ℕ ℕ) where
    unfoldable pub pwr_stat_start :
        OpaqueMap h
        → StatMemory
        → ℕ
        → Option Timespec
        → Option (ℤ × List Sample)
        → Bool
        → ℤ × StatMemory
    unfolding usable begin_period get_current_time
    pwr_stat_start opaque_map stats stat_obj clock last created =
        change (begin_period (get_current_time clock) last created) stats
          (usable h opaque_map stats stat_obj)

    unfoldable pub pwr_stat_stop :
        OpaqueMap h → StatMemory → ℕ → Option Timespec → Option (ℤ × List Sample) → ℤ × StatMemory
    unfolding usable end_period get_current_time
    pwr_stat_stop opaque_map stats stat_obj clock last =
        change (end_period (get_current_time clock) last) stats (usable h opaque_map stats stat_obj)

    -- The thread is gone when start_thread is called.
    unfoldable pub pwr_stat_clear :
        OpaqueMap h
        → StatMemory
        → ℕ
        → Option Timespec
        → Option (ℤ × List Sample)
        → Bool
        → ℤ × StatMemory
    unfolding usable begin_period get_current_time stop_thread
    pwr_stat_clear opaque_map stats stat_obj clock last created =
        change (λ st. begin_period (get_current_time clock) none created (stop_thread f last st))
          stats (usable h opaque_map stats stat_obj)

    -- The value and its times; a statistic of no object has no first value to read.
    unfoldable pub pwr_stat_get_value :
        OpaqueMap h → StatMemory → ℕ → Option Timespec → Outcome (ℤ × Option (ℕ × TimePeriod))
    unfolding usable get_current_time
    pwr_stat_get_value opaque_map stats stat_obj clock =
        let (code, found) = usable h opaque_map stats stat_obj in
        elim found [
          | none ↦ ret (code, none)
          | some s ↦ elim (stats s).cells [
            | [] ↦ fault
            | c ∷ cs ↦ ret (
              code,
              some (timed (stats s).start (end_of (get_current_time clock) (stats s).stop) c),
            )
          ]
        ]

    unfoldable pub pwr_stat_get_values :
        OpaqueMap h → StatMemory → ℕ → Option Timespec → ℤ × Option (List (ℕ × TimePeriod))
    unfolding usable get_current_time
    pwr_stat_get_values opaque_map stats stat_obj clock =
        let (code, found) = usable h opaque_map stats stat_obj in
        elim found [
          | none ↦ (code, none)
          | some s ↦ (
            code,
            some (
                map (timed (stats s).start (end_of (get_current_time clock) (stats s).stop))
                  (stats s).cells),
          )
        ]

    unfoldable pub pwr_stat_get_reduce :
        OpaqueMap h → StatMemory → ℕ → AttrStat → ℤ × Option Reduction
    unfolding usable start_reduction reduce_loop finish_reduction
    pwr_stat_get_reduce opaque_map stats stat_obj op =
        let (code, found) = usable h opaque_map stats stat_obj in
        elim found [
          | none ↦ (code, none)
          | some s ↦ elim (start_reduction op) [
            | none ↦ (ret_failure, none)
            | some r ↦
                (code, some (finish_reduction (stats s).stat (reduce_loop op 0 (stats s).cells r)))
          ]
        ]
