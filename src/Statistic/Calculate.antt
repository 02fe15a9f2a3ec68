-- ===== src/Statistic/Calculate.antt =====
-- lib/statistics.c and lib/statistics.h: a statistic and the thread that calculates it. A double is its
-- 64 bits.
use cray_pwrapi.Base.{
  ℕ, List, [], ◌∷◌, Bool, true, false, Option, none, some, ℤ, int_eq, if◌then◌else◌,
}
use cray_pwrapi.Types.{AttrStat, stat_min, stat_max, stat_avg, stat_stdev, ret_success, ret_failure}

-- The arithmetic of doubles, INFINITY and -INFINITY. Zero has no bit set.
pub record Floats : Type 0 where
  pub lt : ℕ → ℕ → Bool
  pub add : ℕ → ℕ → ℕ
  pub sub : ℕ → ℕ → ℕ
  pub mul : ℕ → ℕ → ℕ
  pub div : ℕ → ℕ → ℕ
  pub sqrt : ℕ → ℕ
  pub of_nat : ℕ → ℕ
  pub one : ℕ
  pub infinity : ℕ
  pub neg_infinity : ℕ

-- What the arrays `values` and `instants`, and `roll_mean` and `roll_sum` of the thread, hold at one
-- index.
pub record Cell : Type 0 where
  pub value : ℕ
  pub instant : ℕ
  pub roll_mean : ℕ
  pub roll_sum : ℕ

-- A thread that has not come to its loop yet, that is in it, with `avgcnt`, or that has left
-- calculate_stat for a statistic it does not know.
pub data Thread : Type 0 where
  starting : Thread
  running : (avgcnt : ℕ) → Thread
  finished : Thread

-- `stat_t`, with `objcount` elements in `cells`; 0 is a NULL reference. `thread` says whether the pointer
-- is not NULL, and `life` is where the thread is, if there is one.
pub record Statistic : Type 0 where
  pub obj : ℕ
  pub grp : ℕ
  pub stat : AttrStat
  pub start : ℕ
  pub stop : ℕ
  pub cells : List Cell
  pub thread : Bool
  pub life : Option Thread

-- A reading and its time.
abbrev pub Sample : Type 0
Sample = ℕ × ℕ

-- An `if` that stores a reading and its time.
abbrev pub keep_if : Bool → Sample → Cell → Cell
keep_if false r c = c
keep_if true r c = record c { value = r.0; instant = r.1 }

module _ (f : Floats) where
  -- One index of the initialization; `none` is the default of the switch.
  unfoldable pub initial_cell : AttrStat → Cell → Option Cell
  initial_cell stat_min c = some (record c { value = f.infinity })
  initial_cell stat_max c = some (record c { value = f.neg_infinity })
  initial_cell stat_avg c = some (record c { value = 0 })
  initial_cell stat_stdev c = some (record c { value = 0; roll_mean = 0; roll_sum = 0 })
  initial_cell _ c = none

  unfoldable pub initial_cells : AttrStat → List Cell → Option (List Cell)
  unfolding initial_cell
  initial_cells stat [] = some []
  initial_cells stat (c ∷ cs) =
      let rest = initial_cells stat cs in
      elim (initial_cell stat c) [
        | none ↦ none
        | some c' ↦ elim rest [ none ↦ none | some cs' ↦ some (c' ∷ cs') ]
      ]

  -- calculate_stat up to its loop.
  unfoldable pub initialize : Statistic → Statistic
  unfolding initial_cells
  initialize st = elim (initial_cells st.stat st.cells) [
    | none ↦ record st { life = some finished }
    | some cells ↦ record st { cells = cells; life = some (running 0) }
  ]

  -- One index of a round of the loop, with the count of this round.
  unfoldable pub calculate_cell : AttrStat → ℕ → Sample → Cell → Cell
  calculate_cell stat_min avgcnt r c = keep_if (f.lt r.0 c.value) r c
  calculate_cell stat_max avgcnt r c = keep_if (f.lt c.value r.0) r c
  calculate_cell stat_avg avgcnt r c = record c {
    value = f.add c.value (f.div (f.sub r.0 c.value) avgcnt);
  }
  calculate_cell stat_stdev avgcnt r c =
      let mean = f.add c.roll_mean (f.div (f.sub r.0 c.roll_mean) avgcnt) in
      let sum = f.add c.roll_sum (f.mul (f.sub r.0 mean) (f.sub r.0 c.roll_mean)) in
      record c { roll_mean = mean; roll_sum = sum; value = f.sqrt (f.div sum (f.sub avgcnt f.one)) }
  calculate_cell _ avgcnt r c = c

  unfoldable pub calculate_cells : AttrStat → ℕ → List Sample → List Cell → List Cell
  unfolding calculate_cell
  calculate_cells stat avgcnt [] cs = cs
  calculate_cells stat avgcnt (r ∷ rs) [] = []
  calculate_cells stat avgcnt (r ∷ rs) (c ∷ cs) =
      calculate_cell stat avgcnt r c ∷ calculate_cells stat avgcnt rs cs

  -- One round of a thread, with the code of the call that reads the attribute and the readings that it
  -- stores for the objects in their order.
  unfoldable pub calculate_round : ℤ → List Sample → Statistic → Statistic
  unfolding calculate_cells
  calculate_round retval readings st = elim st.life [
    | some (running avgcnt) ↦
        if int_eq retval ret_success
        then record st {
          cells = calculate_cells st.stat (f.add avgcnt f.one) readings st.cells;
          life = some (running (f.add avgcnt f.one));
        }
        else st
    | _ ↦ st
  ]

  -- A round that may be in progress: `none` where the thread is about to test `die`.
  abbrev pub last_round : Option (ℤ × List Sample) → Statistic → Statistic
  last_round none st = st
  last_round (some (retval, readings)) st = calculate_round retval readings st

  -- The thread runs to its end once `die` is set: it comes to its loop, and ends the round in progress.
  unfoldable pub join : Option (ℤ × List Sample) → Statistic → Statistic
  unfolding initialize calculate_round
  join last st = elim st.life [
    | none ↦ st
    | some starting ↦ record (last_round last (initialize st)) { life = none }
    | some (running avgcnt) ↦ record (last_round last st) { life = none }
    | some finished ↦ record st { life = none }
  ]

  -- `die` is true only while the thread is joined.
  unfoldable pub stop_thread : Option (ℤ × List Sample) → Statistic → Statistic
  unfolding join
  stop_thread last st = if st.thread then record (join last st) { thread = false } else st

  -- `created` says whether g_thread_try_new gives a thread.
  unfoldable pub start_thread : Option (ℤ × List Sample) → Bool → Statistic → ℤ × Statistic
  unfolding stop_thread
  start_thread last created st =
      let st1 = stop_thread last st in
      if created
      then (ret_success, record st1 { thread = true; life = some starting })
      else (ret_failure, record st1 { thread = false })
