-- ===== src/Group/Tests.antt =====
-- Runs of the set operations and of insertion and removal, on lists for sequences.
use cray_pwrapi.Base.{
  ℕ, ◌≡◌, refl, List, [], ◌∷◌, false, true, not, ◌||◌, ◌&&◌, xor, contains, some, arith, ◌==◌, ret,
  fault,
}
use cray_pwrapi.Glib.Concrete.ListSequence.{list_sequence}
use cray_pwrapi.Group.Sorted.{Ascending}
use cray_pwrapi.Group.Ops.{
  Stats, live, Group, group_union, group_sym_difference, group_insert_obj, group_remove_obj,
}
use cray_pwrapi.Group.Walk.{group_compare_obj, union_list}
use cray_pwrapi.Group.Member.{Leaves, insert_obj_members, remove_obj_members, insert_twice_faults}
use cray_pwrapi.Group.Algebra.{Builds, union_members, sym_difference_members}

abbrev odds : List ℕ
odds = 1 ∷ 3 ∷ 5 ∷ []

abbrev threes : List ℕ
threes = 3 ∷ 6 ∷ []

odds-Ascending : Ascending odds
odds-Ascending = ((omega arith, (omega arith, tt)), ((omega arith, tt), (tt, tt)))

threes-Ascending : Ascending threes
threes-Ascending = ((omega arith, tt), (tt, tt))

abbrev idle : Stats
idle = λ s. record { thread = false; obj = 0; grp = 7 }

abbrev watched : Group list_sequence
watched = record { context_key = 2; list = odds; stat_list = live (4 ∷ []) }

union_runs : union_list list_sequence odds threes [] ≡ 1 ∷ 3 ∷ 5 ∷ 6 ∷ []
unfolding union_list group_compare_obj
union_runs = refl

union_members_example :
    Builds list_sequence
      (group_union list_sequence (some odds) (some threes) (some []))
      (λ a. contains odds a || contains threes a)
union_members_example =
    union_members list_sequence odds threes [] odds-Ascending threes-Ascending refl

sym_difference_members_example :
    Builds list_sequence
      (group_sym_difference list_sequence (some odds) (some threes) (some []))
      (λ a. xor (contains odds a) (contains threes a))
sym_difference_members_example =
    sym_difference_members list_sequence odds threes [] odds-Ascending threes-Ascending refl

insert_obj_members_example :
    Leaves list_sequence
      (group_insert_obj list_sequence idle (some watched) (some 4))
      watched
      (λ a. (a == 4) || contains odds a)
insert_obj_members_example = insert_obj_members list_sequence idle watched 4 odds-Ascending tt

remove_obj_members_example :
    Leaves list_sequence
      (group_remove_obj list_sequence idle (some watched) (some 3))
      watched
      (λ a. contains odds a && not (a == 3))
remove_obj_members_example = remove_obj_members list_sequence idle watched 3 odds-Ascending tt

insert_twice_faults_example :
    (stats' : Stats) × (group' : Group list_sequence) × (group_insert_obj list_sequence idle
        (some watched)
        (some 2)
      ≡ ret (true, stats', some group'))
    × (group_insert_obj list_sequence stats' (some group') (some 4) ≡ fault)
insert_twice_faults_example =
    insert_twice_faults list_sequence idle watched 4 [] 2 4 odds-Ascending refl refl refl
      (omega arith)
