-- ===== src/Statistic/Monitored.antt =====
-- lib/statistics.c: a statistic from its start, through the rounds of its thread, to its reduction.
use cray_pwrapi.Base.{
  int_eq, map, Bool, ℕ, ◌≡◌, refl, sym, ap, ◌∙◌, subst, List, [], true, false, Option, none, some,
  ℤ, get_elem?, length, ◌==◌, update, update_self,
}
use cray_pwrapi.Types.{AttrStat, ret_success}
use cray_pwrapi.Glib.HashTable.{HashTable}
use cray_pwrapi.Opaque.Key.{opaque_get_data_key}
use cray_pwrapi.Opaque.Map.{OpaqueMap, opaque_stat, opaque_map_lookup_type}
use cray_pwrapi.Object.Tree.{Timespec}
use cray_pwrapi.Statistic.Calculate.{
  last_round, join, Floats, Cell, Sample, Statistic, Thread, starting, running, finished,
  initialize, stop_thread, start_thread,
}
use cray_pwrapi.Statistic.Calls.{
  Reduction, start_reduction, first_result, reduce_loop, finish_reduction, is_invalid, StatMemory,
  usable, get_current_time, begin_period, change, pwr_stat_start, pwr_stat_get_reduce,
}
use cray_pwrapi.Statistic.Rounds.{
  round_lem, round_size, run, Kept, thread-Follows, initialize_lem, length-map_cells,
}
use cray_pwrapi.Statistic.Extremes.{IsOrder, Extreme, minimum, maximum, worst, heard_from}
use cray_pwrapi.Statistic.Reduced.{reduce_loop-Progress}
use cray_pwrapi.Statistic.Summary.{Summary, best-Summary}

module _ (f : Floats) where
  pub finish_lem : {op : AttrStat} (x : Extreme op) (r : Reduction) → finish_reduction f op r ≡ r
  unfolding finish_reduction
  finish_lem minimum r = refl
  finish_lem maximum r = refl

  pub start_lem :
      {op : AttrStat} (x : Extreme op) → start_reduction f op ≡ some (first_result (worst f x))
  unfolding start_reduction
  start_lem minimum = refl
  start_lem maximum = refl

  -- What becomes of a statistic whose thread is joined.
  record Joined (st st' : Statistic) : Type 0 where
    cells : List Cell
    life : Option Thread
    same : st' ≡ record st { cells = cells; thread = false; life = life }
    size : length cells ≡ length st.cells

  -- The round in progress, if there is one, is ended.
  ended :
      (last : Option (ℤ × List Sample)) (st : Statistic) (n : ℕ)
      → Joined st (record (last_round f last (record st { life = some (running n) })) {
        life = none;
        thread = false;
      })
  ended none st n = record { cells = st.cells; life = none; same = refl; size = refl }
  ended (some (retval, readings)) st n = record {
    cells = _;
    life = none;
    same =
        ap (λ (s : Statistic). record s { life = none; thread = false })
          (round_lem f st n retval readings (int_eq retval ret_success) refl);
    size = round_size f st n (int_eq retval ret_success) readings;
  }

  Joined-from :
      (last : Option (ℤ × List Sample)) (st : Statistic) (x : Extreme st.stat) (b : Bool)
      (l : Option Thread)
      → Joined st (stop_thread f last (record st { thread = b; life = l }))
  unfolding stop_thread join
  Joined-from last st x false l = record { cells = st.cells; life = l; same = refl; size = refl }
  Joined-from last st x true none = record {
    cells = st.cells;
    life = none;
    same = refl;
    size = refl;
  }
  Joined-from last st x true (some starting) =
      let begun = map (λ (c : Cell). record c { value = worst f x }) st.cells in
      let j = ended last (record st { cells = begun; thread = true }) 0 in
      record {
        cells = j.cells;
        life = j.life;
        same =
            ap (λ (s : Statistic). record (last_round f last s) { life = none; thread = false })
              (initialize_lem f (record st { thread = true; life = some starting }) x)
            ∙ j.same;
        size = j.size ∙ length-map_cells f x st.cells;
      }
  Joined-from last st x true (some (running n)) =
      let j = ended last (record st { thread = true }) n in
      record { cells = j.cells; life = j.life; same = j.same; size = j.size }
  Joined-from last st x true (some finished) = record {
    cells = st.cells;
    life = none;
    same = refl;
    size = refl;
  }

  begin_lem :
      (st : Statistic) (x : Extreme st.stat) (now : ℕ) (last : Option (ℤ × List Sample))
      → (now == 0) ≡ false
      → (cells : List Cell) × ((begin_period f now last true st ≡ (
        ret_success,
        record st { start = now; stop = 0; cells = cells; thread = true; life = some starting },
      ))
          × (length cells ≡ length st.cells))
  unfolding begin_period start_thread
  begin_lem st x now last p =
      let j = Joined-from last (record st { start = now; stop = 0 }) x st.thread st.life in
      (
        j.cells,
        (
          (rw (p, begin_period) refl)
              ∙ ap
                  (λ (s : Statistic).
                    (ret_success, record s { thread = true; life = some starting }))
                  j.same,
          j.size,
        ),
      )

  module _ (h : HashTable ℕ ℕ) where
    pub usable_lem :
        (map : OpaqueMap h) (stats : StatMemory) (stat_obj s : ℕ)
        → opaque_map_lookup_type h (some map) (opaque_get_data_key stat_obj) opaque_stat ≡ some s
        → is_invalid (stats s) ≡ false
        → usable h map stats stat_obj ≡ (ret_success, some s)
    unfolding usable
    usable_lem map stats stat_obj s e v = rw (e, v, usable) refl

    get_reduce_lem :
        (map : OpaqueMap h) (stats : StatMemory) (stat_obj s : ℕ) (st : Statistic)
        (x : Extreme st.stat)
        → opaque_map_lookup_type h (some map) (opaque_get_data_key stat_obj) opaque_stat ≡ some s
        → stats s ≡ st
        → is_invalid st ≡ false
        → pwr_stat_get_reduce f h map stats stat_obj st.stat
          ≡ (ret_success, some (reduce_loop f st.stat 0 st.cells (first_result (worst f x))))
    unfolding pwr_stat_get_reduce
    get_reduce_lem map stats stat_obj s st x e same v =
        rw
          (
            usable_lem map stats stat_obj s e (ap is_invalid same ∙ v),
            pwr_stat_get_reduce,
            start_lem x,
            same,
            finish_lem x (reduce_loop f st.stat 0 st.cells (first_result (worst f x))),
          )
          (ap
            (λ (u : ℤ × Option ℕ).
              (u.0, some (reduce_loop f st.stat 0 st.cells (first_result (worst f x)))))
            (usable_lem map stats stat_obj s e (ap is_invalid same ∙ v)))

    -- The thread of the statistic that was started makes the rounds.
    abbrev pub monitored : StatMemory → ℕ → List (ℤ × List Sample) → StatMemory
    monitored stats s rounds = update stats s (run f rounds (initialize f (stats s)))

    -- The kept cells, whichever index they are taken from.
    follows_cells :
        (o : IsOrder f) (st : Statistic) (x : Extreme st.stat) (i : ℕ)
        (rounds : List (ℤ × List Sample)) (cells : List Cell)
        → (run f rounds (initialize f st)).cells ≡ cells
        → Kept f o x (heard_from i rounds []) (get_elem? cells i)
    follows_cells o st x i rounds cells e =
        let w = thread-Follows f o st x i rounds in
        subst (λ (cs : List Cell). Kept f o x (heard_from i rounds []) (get_elem? cs i))
          (sym (ap (λ (t : Statistic). t.cells) w.same) ∙ e) w.kept

    started_lem :
        (o : IsOrder f) (map : OpaqueMap h) (stats : StatMemory) (stat_obj s : ℕ) (st : Statistic)
        (x : Extreme st.stat) (rounds : List (ℤ × List Sample))
        → opaque_map_lookup_type h (some map) (opaque_get_data_key stat_obj) opaque_stat ≡ some s
        → is_invalid st ≡ false
        → (r : Reduction) × ((pwr_stat_get_reduce f h map
                (monitored (update stats s st) s rounds)
                stat_obj
                st.stat
              ≡ (ret_success, some r))
            × Summary f x (length st.cells) rounds r)
    started_lem o map stats stat_obj s st x rounds e v =
        let w = thread-Follows f o st x 0 rounds in
        let st2 : Statistic = record st { cells = w.cells; life = w.life } in
        let memory = monitored (update stats s st) s rounds in
        let same : memory s ≡ st2 =
          update_self (update stats s st) s (run f rounds (initialize f (update stats s st s)))
          ∙ ap (λ (t : Statistic). run f rounds (initialize f t)) (update_self stats s st)
          ∙ w.same in
        let r = reduce_loop f st.stat 0 w.cells (first_result (worst f x)) in
        (
          r,
          (
            get_reduce_lem map memory stat_obj s st2 x e same v,
            best-Summary f o x w.cells (length st.cells) rounds r w.size
                (λ i.
                  follows_cells o st x i rounds w.cells (ap (λ (t : Statistic). t.cells) w.same))
                (reduce_loop-Progress f o x 0 w.cells (first_result (worst f x))),
          ),
        )

    pwr_stat_start_lem :
        (map : OpaqueMap h) (stats : StatMemory) (stat_obj s : ℕ) (clock : Option Timespec)
        (last : Option (ℤ × List Sample)) (begun : Statistic)
        → opaque_map_lookup_type h (some map) (opaque_get_data_key stat_obj) opaque_stat ≡ some s
        → is_invalid (stats s) ≡ false
        → begin_period f (get_current_time clock) last true (stats s) ≡ (ret_success, begun)
        → pwr_stat_start f h map stats stat_obj clock last true
          ≡ (ret_success, update stats s begun)
    unfolding pwr_stat_start
    pwr_stat_start_lem map stats stat_obj s clock last begun e v b =
        ap (change (begin_period f (get_current_time clock) last true) stats)
          (usable_lem map stats stat_obj s e v)
        ∙ ap (λ (u : ℤ × Statistic). (u.0, update stats s u.1)) b

    -- A statistic of the minimum or the maximum that is valid is started, at a time that the clock
    -- gives and with a thread (a thread that it already has is joined), the thread makes any rounds, of which some may fail to read, and the
    -- statistic is reduced by what it is itself. Then both calls succeed, no reading of any object in
    -- a round that did not fail beats the result, and the result is a reading of the object of the
    -- index, at the instant, or the infinity from which the statistic starts. Doubles are ordered as
    -- documented, NaN included.
    pub started_reduce-Summary :
        (o : IsOrder f) (map : OpaqueMap h) (stats : StatMemory) (stat_obj s : ℕ)
        (clock : Option Timespec) (last : Option (ℤ × List Sample))
        (rounds : List (ℤ × List Sample)) (x : Extreme (stats s).stat)
        → opaque_map_lookup_type h (some map) (opaque_get_data_key stat_obj) opaque_stat ≡ some s
        → is_invalid (stats s) ≡ false
        → (get_current_time clock == 0) ≡ false
        → ((pwr_stat_start f h map stats stat_obj clock last true).0 ≡ ret_success)
          × ((r : Reduction) × ((pwr_stat_get_reduce f h map
                    (monitored (pwr_stat_start f h map stats stat_obj clock last true).1 s rounds)
                    stat_obj
                    (stats s).stat
                  ≡ (ret_success, some r))
                × Summary f x (length (stats s).cells) rounds r))
    started_reduce-Summary o map stats stat_obj s clock last rounds x e v p =
        let (cells, (begin, size)) = begin_lem (stats s) x (get_current_time clock) last p in
        let begun : Statistic = record (stats s) {
          start = get_current_time clock;
          stop = 0;
          cells = cells;
          thread = true;
          life = some starting;
        } in
        let start : pwr_stat_start f h map stats stat_obj clock last true
            ≡ (ret_success, update stats s begun) =
          pwr_stat_start_lem map stats stat_obj s clock last begun e v begin in
        let (r, (reduce, summary)) = started_lem o map stats stat_obj s begun x rounds e v in
        (
          ap (λ (u : ℤ × StatMemory). u.0) start,
          (
            r,
            (
              ap
                    (λ (u : ℤ × StatMemory).
                      pwr_stat_get_reduce f h map (monitored u.1 s rounds) stat_obj (stats s).stat)
                    start
                  ∙ reduce,
              subst (λ n. Summary f x n rounds r) size summary,
            ),
          ),
        )
