-- ===== src/Statistic/Tests.antt =====
-- Runs of the calls on statistics: one of the minimum over three objects, and one of the standard
-- deviation over two.
use cray_pwrapi.Base.{
  ℕ, ◌+◌, ◌-◌, ◌*◌, ◌/◌, ◌^◌, ◌≡◌, refl, List, [], ◌∷◌, map, true, false, Option, none, some, ℤ,
  pos, negsuc, ltb, ◌==◌, if◌then◌else◌, update, ℕ_discrete, inl, inr, ◌⊎◌, arith, Bool-cases,
}
use cray_pwrapi.Types.{stat_min, stat_stdev, ret_success}
use cray_pwrapi.Glib.HashTable.{HashTable}
use cray_pwrapi.Glib.Concrete.ListTable.{list_table}
use cray_pwrapi.Opaque.Key.{opaque_get_data_key}
use cray_pwrapi.Opaque.Map.{
  OpaqueMap, opaque_invalid, opaque_stat, opaque_map_lookup, opaque_map_lookup_type,
}
use cray_pwrapi.Object.Tree.{Timespec, pwr_tspec_to_nsec}
use cray_pwrapi.Statistic.Calculate.{
  Floats, Cell, Sample, Statistic, running, stop_thread, start_thread, initialize, initial_cells,
  initial_cell, calculate_round, calculate_cells, calculate_cell,
}
use cray_pwrapi.Statistic.Calls.{
  StatMemory, Reduction, first_result, usable, begin_period, start_reduction, reduce_loop,
  reduce_cell, finish_reduction, get_current_time, timed, pwr_stat_start, pwr_stat_stop,
  pwr_stat_get_values, pwr_stat_get_reduce,
}
use cray_pwrapi.Statistic.Extremes.{IsOrder, minimum}
use cray_pwrapi.Statistic.Rounds.{run}
use cray_pwrapi.Statistic.Summary.{Summary}
use cray_pwrapi.Statistic.Monitored.{monitored, started_reduce-Summary}
use cray_pwrapi.Statistic.Period.{last_cells, stopped_values}
use cray_pwrapi.Statistic.Mixed.{of_deviation, result_of, Mixed-result}

-- Numbers for doubles, of which 1000 is infinity.
abbrev numbers : Floats
numbers = record {
  lt = ltb;
  add = λ a b. a + b;
  sub = λ a b. a - b;
  mul = λ a b. a * b;
  div = λ a b. if b == 0 then 999 else a / b;
  sqrt = λ a. a;
  of_nat = λ n. n;
  one = 1;
  infinity = 1000;
  neg_infinity = 0;
}

ltb_between : (a b c : ℕ) → ltb a b ≡ true → (ltb a c ≡ true) ⊎ (ltb c b ≡ true)
ltb_between a b c p = elim (Bool-cases (ltb a c)) [ inl q ↦ inl q | inr q ↦ inr (ground arith) ]

ltb_irreflexive : (a : ℕ) → ltb a a ≡ false
ltb_irreflexive a = ground arith

ltb_transitive : (a b c : ℕ) → ltb a b ≡ true → ltb b c ≡ true → ltb a c ≡ true
ltb_transitive a b c p q = ground arith

abbrev order : IsOrder numbers
order = record {
  irreflexive = ltb_irreflexive;
  transitive = ltb_transitive;
  nan = λ a. false;
  nan_below = λ a b p. (refl, refl);
  between = λ a b c p n. ltb_between a b c p;
  infinities = (refl, refl);
}

abbrev key_map : HashTable ℕ ℕ
key_map = list_table ℕ_discrete

abbrev opaque : OpaqueMap key_map
opaque = record {
  rand = [];
  table = (4, 10) ∷ (5, 20) ∷ [];
  refs = λ a.
      if a == 10
      then record { type_of = opaque_stat; key = 4 }
      else if a == 20
      then record { type_of = opaque_stat; key = 5 }
      else record { type_of = opaque_invalid; key = 0 };
}

abbrev cell : ℕ → ℕ → Cell
cell v t = record { value = v; instant = t; roll_mean = 0; roll_sum = 0 }

abbrev lowest : Statistic
lowest = record {
  obj = 0;
  grp = 77;
  stat = stat_min;
  start = 1;
  stop = 2;
  cells = cell 3 0 ∷ cell 0 0 ∷ cell 0 0 ∷ [];
  thread = false;
  life = none;
}

abbrev deviation : Statistic
deviation = record {
  obj = 0;
  grp = 78;
  stat = stat_stdev;
  start = 7;
  stop = 0;
  cells = cell 30 0 ∷ cell 40 0 ∷ [];
  thread = true;
  life = some (running 5);
}

abbrev memory : StatMemory
memory a = if a == 10 then lowest else deviation

abbrev reference : ℕ → ℕ
reference key = 3 * 2 ^ 32 + key

abbrev at_second : ℕ → Option Timespec
at_second n = some (record { tv_sec = n; tv_nsec = 5 })

-- The second round fails to read.
abbrev rounds : List (ℤ × List Sample)
rounds =
    (pos 0, (50, 1) ∷ (60, 1) ∷ (70, 2) ∷ [])
    ∷ (negsuc 0, (1, 3) ∷ (1, 3) ∷ (1, 3) ∷ [])
    ∷ (pos 0, (55, 4) ∷ (20, 5) ∷ (90, 6) ∷ [])
    ∷ []

lowest_found :
    opaque_map_lookup_type key_map (some opaque) (opaque_get_data_key (reference 4)) opaque_stat
    ≡ some 10
unfolding opaque_map_lookup_type opaque_map_lookup opaque_get_data_key ℕ_discrete
lowest_found = refl

deviation_found :
    opaque_map_lookup_type key_map (some opaque) (opaque_get_data_key (reference 5)) opaque_stat
    ≡ some 20
unfolding opaque_map_lookup_type opaque_map_lookup opaque_get_data_key ℕ_discrete
deviation_found = refl

clock_runs : (get_current_time (at_second 9) == 0) ≡ false
unfolding get_current_time pwr_tspec_to_nsec
clock_runs = refl

lowest_reading :
    pwr_stat_get_reduce numbers key_map opaque
      (monitored numbers key_map
        (pwr_stat_start numbers key_map opaque memory (reference 4) (at_second 9) none true).1
        10
        rounds)
      (reference 4)
      stat_min
    ≡ (ret_success, some (record (first_result 20) { index = some 1; instant = some 5 }))
unfolding pwr_stat_get_reduce pwr_stat_start usable opaque_map_lookup_type opaque_map_lookup
    opaque_get_data_key ℕ_discrete get_current_time pwr_tspec_to_nsec begin_period start_thread
    stop_thread initialize initial_cells initial_cell run calculate_round calculate_cells
    calculate_cell start_reduction reduce_loop reduce_cell finish_reduction
lowest_reading = refl

started_reduce-Summary_example :
    ((pwr_stat_start numbers key_map opaque memory (reference 4) (at_second 9) none true).0
      ≡ ret_success)
    × ((r : Reduction) × ((pwr_stat_get_reduce numbers key_map opaque
              (monitored numbers key_map
                (pwr_stat_start numbers key_map opaque memory
                  (reference 4)
                  (at_second 9)
                  none
                  true).1
                10
                rounds)
              (reference 4)
              stat_min
            ≡ (ret_success, some r))
          × Summary numbers minimum 3 rounds r))
started_reduce-Summary_example =
    started_reduce-Summary numbers key_map order opaque memory (reference 4) 10 (at_second 9) none
      rounds minimum lowest_found refl clock_runs

-- A round in progress in which the readings of both objects are fetched.
abbrev in_progress : Option (ℤ × List Sample)
in_progress = some (ret_success, (50, 8) ∷ (60, 8) ∷ [])

stopped_values_example :
    ((pwr_stat_stop numbers key_map opaque memory (reference 5) (at_second 9) in_progress).0
      ≡ ret_success)
    × (pwr_stat_get_values numbers key_map opaque
          (update
            (pwr_stat_stop numbers key_map opaque memory (reference 5) (at_second 9) in_progress).1
            20
            (run numbers rounds (
              (pwr_stat_stop numbers key_map opaque memory
                  (reference 5)
                  (at_second 9)
                  in_progress).1
                20)))
          (reference 5)
          (at_second 11)
        ≡ (
          ret_success,
          some (
              map
                (timed 7 (get_current_time (at_second 9)))
                (last_cells numbers in_progress (memory 20))),
        ))
stopped_values_example =
    stopped_values numbers key_map opaque memory (reference 5) 20 5 deviation (at_second 9)
      (at_second 11) in_progress rounds deviation_found refl refl clock_runs

Mixed-result_example :
    result_of numbers key_map
      (pwr_stat_get_reduce numbers key_map opaque memory (reference 5) stat_min)
    ≡ (ret_success, some 999)
Mixed-result_example =
    Mixed-result numbers key_map opaque memory (reference 5) 20 stat_min 999 deviation_found refl
      (of_deviation minimum)
