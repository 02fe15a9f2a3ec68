-- ===== src/Group/Walk.antt =====
-- lib/group.c: group_compare_obj, and the loops that walk two sorted sequences in parallel.
-- An iterator is the list of what it has still to visit. A walk returns both iterators and the
-- sequence under construction, as they stand when one iterator has come to its end.
use cray_pwrapi.Base.{ℕ, List, [], ◌∷◌, ltb, if◌then◌else◌, Sign, before, same, after}
use cray_pwrapi.Glib.Sequence.{Sequence}

-- Objects are compared by address.
unfoldable pub group_compare_obj : ℕ → ℕ → Sign
group_compare_obj obj1 obj2 =
    if ltb obj1 obj2 then before else if ltb obj2 obj1 then after else same

module _ (g : Sequence) where
  open g use {Seq, append, items}

  -- A loop that appends the rest of a sequence.
  unfoldable pub append_rest : List ℕ → Seq → Seq
  append_rest [] out = out
  append_rest (x ∷ xs) out = append_rest xs (append out x)

  unfoldable pub union_walk : List ℕ → List ℕ → Seq → List ℕ × List ℕ × Seq
  union_walk [] ys out = ([], ys, out)
  union_walk (x ∷ xs) [] out = (x ∷ xs, [], out)
  union_walk (x ∷ xs) (y ∷ ys) out = elim (group_compare_obj x y) [
    | before ↦ union_walk xs (y ∷ ys) (append out x)
    | same ↦ union_walk xs ys (append out x)
    | after ↦ union_walk (x ∷ xs) ys (append out y)
  ]

  unfoldable pub intersection_walk : List ℕ → List ℕ → Seq → Seq
  intersection_walk [] ys out = out
  intersection_walk (x ∷ xs) [] out = out
  intersection_walk (x ∷ xs) (y ∷ ys) out = elim (group_compare_obj x y) [
    | before ↦ intersection_walk xs (y ∷ ys) out
    | same ↦ intersection_walk xs ys (append out x)
    | after ↦ intersection_walk (x ∷ xs) ys out
  ]

  unfoldable pub difference_walk : List ℕ → List ℕ → Seq → List ℕ × Seq
  difference_walk [] ys out = ([], out)
  difference_walk (x ∷ xs) [] out = (x ∷ xs, out)
  difference_walk (x ∷ xs) (y ∷ ys) out = elim (group_compare_obj x y) [
    | before ↦ difference_walk xs (y ∷ ys) (append out x)
    | same ↦ difference_walk xs ys out
    | after ↦ difference_walk (x ∷ xs) ys out
  ]

  unfoldable pub sym_difference_walk : List ℕ → List ℕ → Seq → List ℕ × List ℕ × Seq
  sym_difference_walk [] ys out = ([], ys, out)
  sym_difference_walk (x ∷ xs) [] out = (x ∷ xs, [], out)
  sym_difference_walk (x ∷ xs) (y ∷ ys) out = elim (group_compare_obj x y) [
    | before ↦ sym_difference_walk xs (y ∷ ys) (append out x)
    | same ↦ sym_difference_walk xs ys out
    | after ↦ sym_difference_walk (x ∷ xs) ys (append out y)
  ]

  -- The bodies of group_union, group_intersection, group_difference and group_sym_difference
  -- behind their test for NULL, from the lists of the two groups to the list of the third.
  unfoldable pub union_list : Seq → Seq → Seq → Seq
  unfolding union_walk append_rest
  union_list list1 list2 out =
      let (iter1, iter2, out') = union_walk (items list1) (items list2) out in
      append_rest iter2 (append_rest iter1 out')

  unfoldable pub intersection_list : Seq → Seq → Seq → Seq
  unfolding intersection_walk
  intersection_list list1 list2 out = intersection_walk (items list1) (items list2) out

  unfoldable pub difference_list : Seq → Seq → Seq → Seq
  unfolding difference_walk append_rest
  difference_list list1 list2 out =
      let (iter1, out') = difference_walk (items list1) (items list2) out in append_rest iter1 out'

  unfoldable pub sym_difference_list : Seq → Seq → Seq → Seq
  unfolding sym_difference_walk append_rest
  sym_difference_list list1 list2 out =
      let (iter1, iter2, out') = sym_difference_walk (items list1) (items list2) out in
      append_rest iter2 (append_rest iter1 out')
