-- ===== src/Group/Ops.antt =====
-- lib/group.c and lib/group.h: the group, its set operations behind their tests for NULL, its
-- length, and the insertion and removal of an object. A pointer argument is an Option.
use cray_pwrapi.Base.{
  ℕ, List, [], ◌∷◌, Bool, true, false, Option, none, some, ℤ, pos, negsuc, Outcome, ret, fault,
  ◌>>=◌, update,
}
use cray_pwrapi.Glib.Sequence.{Sequence}
use cray_pwrapi.Group.Walk.{
  group_compare_obj, append_rest, union_list, intersection_list, difference_list,
  sym_difference_list,
}

-- What invalidation reads and writes of a `stat_t`: whether its thread runs, and what is monitored
-- (0 for none).
pub record Stat : Type 0 where
  pub thread : Bool
  pub obj : ℕ
  pub grp : ℕ

abbrev pub Stats : Type 0
Stats = ℕ → Stat

-- The pointer `stat_list`: to a list of statistics (NULL for the empty one), or to nodes that
-- g_list_free_full has released.
pub data StatList : Type 0 where
  live : List ℕ → StatList
  released : StatList

-- lib/statistics.c: the thread is stopped, and the statistic monitors nothing any more.
unfoldable pub stat_invalidate_callback : Stats → ℕ → Stats
stat_invalidate_callback stats s = update stats s (record { thread = false; obj = 0; grp = 0 })

unfoldable pub invalidate_all : Stats → List ℕ → Stats
unfolding stat_invalidate_callback
invalidate_all stats [] = stats
invalidate_all stats (s ∷ ss) = invalidate_all (stat_invalidate_callback stats s) ss

-- The nodes are freed and the field keeps its value.
unfoldable pub group_invalidate_statistics : Stats → StatList → Outcome (Stats × StatList)
unfolding invalidate_all
group_invalidate_statistics stats (live []) = ret (stats, live [])
group_invalidate_statistics stats (live (s ∷ ss)) = ret (invalidate_all stats (s ∷ ss), released)
group_invalidate_statistics stats released = fault

module _ (g : Sequence) where
  open g use {Seq, items, get_length, lookup, insert_sorted, remove}

  -- Its opaque reference stands in the memory of the map of opaque keys.
  pub record Group : Type 0 where
    pub context_key : ℕ
    pub list : Seq
    pub stat_list : StatList

  -- The integer that a set operation returns, with the list of its third group afterwards.
  unfoldable pub group_union : Option Seq → Option Seq → Option Seq → ℤ × Option Seq
  unfolding union_list
  group_union (some l1) (some l2) (some out) = (pos 0, some (union_list g l1 l2 out))
  group_union _ _ out = (negsuc 0, out)

  unfoldable pub group_intersection : Option Seq → Option Seq → Option Seq → ℤ × Option Seq
  unfolding intersection_list
  group_intersection (some l1) (some l2) (some out) = (pos 0, some (intersection_list g l1 l2 out))
  group_intersection _ _ out = (negsuc 0, out)

  unfoldable pub group_difference : Option Seq → Option Seq → Option Seq → ℤ × Option Seq
  unfolding difference_list
  group_difference (some l1) (some l2) (some out) = (pos 0, some (difference_list g l1 l2 out))
  group_difference _ _ out = (negsuc 0, out)

  unfoldable pub group_sym_difference : Option Seq → Option Seq → Option Seq → ℤ × Option Seq
  unfolding sym_difference_list
  group_sym_difference (some l1) (some l2) (some out) =
      (pos 0, some (sym_difference_list g l1 l2 out))
  group_sym_difference _ _ out = (negsuc 0, out)

  unfoldable pub group_copy : Option Seq → Option Seq → ℤ × Option Seq
  unfolding append_rest
  group_copy (some from) (some to) = (pos 0, some (append_rest g (items from) to))
  group_copy _ to = (negsuc 0, to)

  unfoldable pub group_get_length : Option Group → ℤ
  group_get_length none = negsuc 0
  group_get_length (some group) = pos (get_length group.list)

  -- An object that is new to the group makes the group's statistics invalid.
  unfoldable pub insert_new : Stats → Group → ℕ → Outcome (Bool × Stats × Group)
  unfolding group_compare_obj group_invalidate_statistics
  insert_new stats group obj = do
    (stats', stat_list') ← group_invalidate_statistics stats group.stat_list
    ret (
      true,
      stats',
      record group {
        list = insert_sorted group_compare_obj group.list obj;
        stat_list = stat_list';
      },
    )

  -- Nothing changes where a pointer is NULL, or where the object is there already.
  unfoldable pub group_insert_obj :
      Stats → Option Group → Option ℕ → Outcome (Bool × Stats × Option Group)
  unfolding insert_new group_compare_obj
  group_insert_obj stats (some group) (some obj) = elim (lookup group_compare_obj group.list obj) [
    | some iter ↦ ret (true, stats, some group)
    | none ↦ do
      (retval, stats', group') ← insert_new stats group obj
      ret (retval, stats', some group')
  ]
  group_insert_obj stats group _ = ret (false, stats, group)

  unfoldable pub remove_found : Stats → Group → ℕ → Outcome (Bool × Stats × Group)
  unfolding group_invalidate_statistics
  remove_found stats group iter = do
    (stats', stat_list') ← group_invalidate_statistics stats group.stat_list
    ret (true, stats', record group { list = remove group.list iter; stat_list = stat_list' })

  unfoldable pub group_remove_obj :
      Stats → Option Group → Option ℕ → Outcome (Bool × Stats × Option Group)
  unfolding remove_found group_compare_obj
  group_remove_obj stats (some group) (some obj) = elim (lookup group_compare_obj group.list obj) [
    | none ↦ ret (true, stats, some group)
    | some iter ↦ do
      (retval, stats', group') ← remove_found stats group iter
      ret (retval, stats', some group')
  ]
  group_remove_obj stats group _ = ret (false, stats, group)
