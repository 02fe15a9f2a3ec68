-- ===== src/Statistic/Mixed.antt =====
-- lib/statistics.c: PWR_StatGetReduce where the reduction is not what the statistic is.
use cray_pwrapi.Base.{
  ℕ, ◌+◌, ◌≡◌, refl, ap, ◌∙◌, List, [], ◌∷◌, Bool, true, false, Option, none, some, ℤ,
}
use cray_pwrapi.Types.{AttrStat, stat_min, stat_max, stat_stdev, ret_success}
use cray_pwrapi.Glib.HashTable.{HashTable}
use cray_pwrapi.Opaque.Key.{opaque_get_data_key}
use cray_pwrapi.Opaque.Map.{OpaqueMap, opaque_stat, opaque_map_lookup_type}
use cray_pwrapi.Statistic.Calculate.{Floats, Cell}
use cray_pwrapi.Statistic.Calls.{
  Reduction, select_if, first_result, reduce_cell, reduce_loop, start_reduction, finish_reduction,
  is_invalid, StatMemory, pwr_stat_get_reduce,
}
use cray_pwrapi.Statistic.Extremes.{Extreme, minimum, maximum, worst}
use cray_pwrapi.Statistic.Monitored.{usable_lem, start_lem, finish_lem}

module _ (f : Floats) where
  -- The variables of the deviation, which a reduction by another operation leaves.
  abbrev unsummed : Reduction → ℕ × ℕ
  unsummed r = (r.roll_sum, r.avgcnt)

  select_unsummed :
      (b : Bool) (i : ℕ) (c : Cell) (r : Reduction) → unsummed (select_if b i c r) ≡ unsummed r
  select_unsummed true i c r = refl
  select_unsummed false i c r = refl

  unsummed-reduce_loop :
      {op : AttrStat} (x : Extreme op) (i : ℕ) (cs : List Cell) (r : Reduction)
      → unsummed (reduce_loop f op i cs r) ≡ unsummed r
  unfolding reduce_loop reduce_cell
  unsummed-reduce_loop x i [] r = refl
  unsummed-reduce_loop minimum i (c ∷ cs) r =
      unsummed-reduce_loop minimum (i + 1) cs (reduce_cell f stat_min i c r)
      ∙ select_unsummed _ i c r
  unsummed-reduce_loop maximum i (c ∷ cs) r =
      unsummed-reduce_loop maximum (i + 1) cs (reduce_cell f stat_max i c r)
      ∙ select_unsummed _ i c r

  reduce_loop_result :
      (i : ℕ) (cs : List Cell) (r : Reduction) → (reduce_loop f stat_stdev i cs r).result ≡ r.result
  unfolding reduce_loop reduce_cell
  reduce_loop_result i [] r = refl
  reduce_loop_result i (c ∷ cs) r = reduce_loop_result (i + 1) cs (reduce_cell f stat_stdev i c r)

  finish_unsummed :
      {op : AttrStat} (x : Extreme op) (cs : List Cell)
      → (finish_reduction f stat_stdev (reduce_loop f op 0 cs (first_result (worst f x)))).result
        ≡ f.sqrt (f.div 0 (f.sub 0 f.one))
  unfolding finish_reduction
  finish_unsummed x cs =
      ap (λ (u : ℕ × ℕ). f.sqrt (f.div u.0 (f.sub u.1 f.one)))
        (unsummed-reduce_loop x 0 cs (first_result (worst f x)))

  -- What a statistic is, by which operation it is reduced, and the result.
  pub data Mixed : AttrStat → AttrStat → ℕ → Type 0 where
    of_deviation :
        {op : AttrStat} → Extreme op → Mixed stat_stdev op (f.sqrt (f.div 0 (f.sub 0 f.one)))
    by_deviation : {stat : AttrStat} → Extreme stat → Mixed stat stat_stdev 0

  finish-Mixed :
      {stat op : AttrStat} {v : ℕ}
      → Mixed stat op v
      → (cs : List Cell)
      → (r : Reduction) × ((start_reduction f op ≡ some r)
          × ((finish_reduction f stat (reduce_loop f op 0 cs r)).result ≡ v))
  unfolding start_reduction
  finish-Mixed (of_deviation x) cs =
      (first_result (worst f x), (start_lem f x, finish_unsummed x cs))
  finish-Mixed (by_deviation x) cs = (
    first_result 0,
    (
      refl,
      ap (λ (a : Reduction). a.result)
            (finish_lem f x (reduce_loop f stat_stdev 0 cs (first_result 0)))
          ∙ reduce_loop_result 0 cs (first_result 0),
    ),
  )

  module _ (h : HashTable ℕ ℕ) where
    abbrev pub result_of : ℤ × Option Reduction → ℤ × Option ℕ
    result_of (code, none) = (code, none)
    result_of (code, some r) = (code, some r.result)

    get_reduce_with :
        (opaque_map : OpaqueMap h) (stats : StatMemory) (stat_obj s : ℕ) (op : AttrStat)
        (r : Reduction)
        → opaque_map_lookup_type h (some opaque_map) (opaque_get_data_key stat_obj) opaque_stat
          ≡ some s
        → is_invalid (stats s) ≡ false
        → start_reduction f op ≡ some r
        → result_of (pwr_stat_get_reduce f h opaque_map stats stat_obj op) ≡ (
          ret_success,
          some (finish_reduction f (stats s).stat (reduce_loop f op 0 (stats s).cells r)).result,
        )
    unfolding pwr_stat_get_reduce
    get_reduce_with opaque_map stats stat_obj s op r e v start =
        rw (usable_lem f h opaque_map stats stat_obj s e v, pwr_stat_get_reduce, start)
          (ap
            (λ (u : ℤ × Option ℕ). (
              u.0,
              some
                  (finish_reduction f (stats s).stat (reduce_loop f op 0 (stats s).cells r)).result,
            ))
            (usable_lem f h opaque_map stats stat_obj s e v))

    -- A valid statistic is reduced by an operation that is not its own, one of the two being the
    -- standard deviation and the other the minimum or the maximum. Then the call succeeds, and its
    -- result does not depend on the values: it is 0 by the standard deviation, and of the standard
    -- deviation it is the root of the quotient of 0 and 0 less 1.
    pub Mixed-result :
        (opaque_map : OpaqueMap h) (stats : StatMemory) (stat_obj s : ℕ) (op : AttrStat) (v : ℕ)
        → opaque_map_lookup_type h (some opaque_map) (opaque_get_data_key stat_obj) opaque_stat
          ≡ some s
        → is_invalid (stats s) ≡ false
        → Mixed (stats s).stat op v
        → result_of (pwr_stat_get_reduce f h opaque_map stats stat_obj op) ≡ (ret_success, some v)
    Mixed-result opaque_map stats stat_obj s op v e valid x =
        let (r, (start, result)) = finish-Mixed x (stats s).cells in
        get_reduce_with opaque_map stats stat_obj s op r e valid start
        ∙ ap (λ n. (ret_success, some n)) result
