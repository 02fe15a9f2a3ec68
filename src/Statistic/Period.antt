-- ===== src/Statistic/Period.antt =====
-- lib/statistics.c: what PWR_StatGetValues gives after PWR_StatStop.
use cray_pwrapi.Base.{
  sym, int_eq, ℕ, ◌≡◌, refl, ap, ◌∙◌, List, [], ◌∷◌, map, true, false, Option, none, some, ℤ, ◌==◌,
  update, update_self,
}
use cray_pwrapi.Types.{ret_success}
use cray_pwrapi.Glib.HashTable.{HashTable}
use cray_pwrapi.Opaque.Key.{opaque_get_data_key}
use cray_pwrapi.Opaque.Map.{OpaqueMap, opaque_stat, opaque_map_lookup_type}
use cray_pwrapi.Object.Tree.{Timespec}
use cray_pwrapi.Statistic.Calculate.{
  last_round, join, Cell, Floats, Sample, Statistic, running, stop_thread, calculate_round,
}
use cray_pwrapi.Statistic.Calls.{
  is_invalid, StatMemory, get_current_time, end_of, end_period, change, timed, pwr_stat_stop,
  pwr_stat_get_values,
}
use cray_pwrapi.Statistic.Rounds.{run, round_lem}
use cray_pwrapi.Statistic.Monitored.{usable_lem}

module _ (f : Floats) where
  run_stopped :
      (rounds : List (ℤ × List Sample)) (st : Statistic)
      → run f rounds (record st { life = none }) ≡ record st { life = none }
  unfolding run calculate_round
  run_stopped [] st = refl
  run_stopped ((retval, readings) ∷ rounds) st = run_stopped rounds st

  -- What the round in progress leaves of the cells.
  abbrev pub last_cells : Option (ℤ × List Sample) → Statistic → List Cell
  last_cells last st = (last_round f last st).cells

  last_round_lem :
      (last : Option (ℤ × List Sample)) (st : Statistic) (n : ℕ)
      → record (last_round f last (record st { life = some (running n) })) {
        thread = false;
        life = none;
      }
        ≡ record st {
          cells = last_cells last (record st { life = some (running n) });
          thread = false;
          life = none;
        }
  last_round_lem none st n = refl
  last_round_lem (some (retval, readings)) st n =
      let e = round_lem f st n retval readings (int_eq retval ret_success) refl in
      ap (λ (s : Statistic). record s { thread = false; life = none }) e
      ∙ ap (λ (cs : List Cell). record st { cells = cs; thread = false; life = none })
          (sym (ap (λ (s : Statistic). s.cells) e))

  -- The round does not depend on the end of the period.
  last_cells_stop :
      (last : Option (ℤ × List Sample)) (st : Statistic) (n now : ℕ)
      → last_cells last (record st { stop = now; life = some (running n) })
        ≡ last_cells last (record st { life = some (running n) })
  last_cells_stop none st n now = refl
  last_cells_stop (some (retval, readings)) st n now =
      let b = int_eq retval ret_success in
      ap (λ (s : Statistic). s.cells)
        (round_lem f (record st { stop = now }) n retval readings b refl)
      ∙ sym (ap (λ (s : Statistic). s.cells) (round_lem f st n retval readings b refl))

  stop_running :
      (last : Option (ℤ × List Sample)) (st : Statistic) (n : ℕ)
      → stop_thread f last (record st { thread = true; life = some (running n) })
        ≡ record (last_round f last (record st { thread = true; life = some (running n) })) {
          thread = false;
          life = none;
        }
  unfolding stop_thread join
  stop_running last st n = refl

  end_period_lem :
      (st : Statistic) (n now : ℕ) (last : Option (ℤ × List Sample))
      → (now == 0) ≡ false
      → end_period f now last (record st { thread = true; life = some (running n) }) ≡ (
        ret_success,
        record st {
          stop = now;
          cells = last_cells last (record st { thread = true; life = some (running n) });
          thread = false;
          life = none;
        },
      )
  unfolding end_period
  end_period_lem st n now last p =
      rw (p, end_period)
        (ap (λ (s : Statistic). (ret_success, s))
          (stop_running last (record st { stop = now }) n
            ∙ last_round_lem last (record st { stop = now; thread = true }) n
            ∙ ap
                (λ (cs : List Cell). record st {
                  stop = now;
                  cells = cs;
                  thread = false;
                  life = none;
                })
                (last_cells_stop last (record st { thread = true }) n now)))

  end_of_lem : (now stop : ℕ) → (stop == 0) ≡ false → end_of now stop ≡ stop
  end_of_lem now stop p = rw p refl

  module _ (h : HashTable ℕ ℕ) where
    get_values_lem :
        (opaque_map : OpaqueMap h) (stats : StatMemory) (stat_obj s : ℕ) (st : Statistic)
        (clock : Option Timespec)
        → opaque_map_lookup_type h (some opaque_map) (opaque_get_data_key stat_obj) opaque_stat
          ≡ some s
        → stats s ≡ st
        → is_invalid st ≡ false
        → (st.stop == 0) ≡ false
        → pwr_stat_get_values f h opaque_map stats stat_obj clock
          ≡ (ret_success, some (map (timed st.start st.stop) st.cells))
    unfolding pwr_stat_get_values
    get_values_lem opaque_map stats stat_obj s st clock e same v p =
        rw
          (
            usable_lem f h opaque_map stats stat_obj s e (ap is_invalid same ∙ v),
            pwr_stat_get_values,
            same,
            p,
          )
          (ap (λ (u : ℤ × Option ℕ). (u.0, some (map (timed st.start st.stop) st.cells)))
            (usable_lem f h opaque_map stats stat_obj s e (ap is_invalid same ∙ v)))

    -- A valid statistic whose thread runs, with or without a round in progress, is stopped at a time
    -- that the clock gives. Then the call succeeds, and whatever the thread would still do and whenever
    -- the values are asked for, they are those that the round in progress leaves, or those of the
    -- moment of the call without one, each with its instant, the start of the statistic and the time
    -- of the call as the end.
    pub stopped_values :
        (opaque_map : OpaqueMap h) (stats : StatMemory) (stat_obj s n : ℕ) (st : Statistic)
        (clock later : Option Timespec) (last : Option (ℤ × List Sample))
        (rounds : List (ℤ × List Sample))
        → opaque_map_lookup_type h (some opaque_map) (opaque_get_data_key stat_obj) opaque_stat
          ≡ some s
        → is_invalid st ≡ false
        → stats s ≡ record st { thread = true; life = some (running n) }
        → (get_current_time clock == 0) ≡ false
        → let (code, stats1) = pwr_stat_stop f h opaque_map stats stat_obj clock last in
          (code ≡ ret_success)
          × (pwr_stat_get_values f h opaque_map
                (update stats1 s (run f rounds (stats1 s)))
                stat_obj
                later
              ≡ (
                ret_success,
                some (map (timed st.start (get_current_time clock)) (last_cells last (stats s))),
              ))
    unfolding pwr_stat_stop
    stopped_values opaque_map stats stat_obj s n st clock later last rounds e v t p =
        let now = get_current_time clock in
        let done : Statistic = record st {
          stop = now;
          cells = last_cells last (record st { thread = true; life = some (running n) });
          thread = false;
          life = none;
        } in
        let stop : pwr_stat_stop f h opaque_map stats stat_obj clock last
            ≡ (ret_success, update stats s done) =
          ap (change (end_period f now last) stats)
            (usable_lem f h opaque_map stats stat_obj s e (ap is_invalid t ∙ v))
          ∙ ap (λ (u : ℤ × Statistic). (u.0, update stats s u.1))
              (ap (end_period f now last) t ∙ end_period_lem st n now last p) in
        let memory = update (update stats s done) s (run f rounds (update stats s done s)) in
        let same : memory s ≡ done =
          update_self (update stats s done) s (run f rounds (update stats s done s))
          ∙ ap (λ (a : Statistic). run f rounds a) (update_self stats s done)
          ∙ run_stopped rounds done in
        (
          ap (λ (u : ℤ × StatMemory). u.0) stop,
          ap
                (λ (u : ℤ × StatMemory).
                  pwr_stat_get_values f h opaque_map (update u.1 s (run f rounds (u.1 s))) stat_obj
                    later)
                stop
              ∙ get_values_lem opaque_map memory stat_obj s done later e same v p
              ∙ ap
                  (λ (a : Statistic).
                    (ret_success, some (map (timed st.start now) (last_cells last a))))
                  (sym t),
        )
