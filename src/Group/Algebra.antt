-- ===== src/Group/Algebra.antt =====
-- group_union, group_intersection, group_difference and group_sym_difference of lib/group.c as
-- operations on finite sets of objects, and group_copy.
use cray_pwrapi.Base.{
  ℕ, ◌+◌, ◌≡◌, refl, List, [], ◌∷◌, ◌++◌, Bool, ◌||◌, ◌&&◌, not, xor, Option, some, arith, contains,
  length, ℤ, pos,
}
use cray_pwrapi.Glib.Sequence.{Sequence}
use cray_pwrapi.Group.Sorted.{Ascending, Ascending-ext}
use cray_pwrapi.Group.Walk.{
  union_list, intersection_list, difference_list, sym_difference_list, append_rest,
}
use cray_pwrapi.Group.Sets.{
  compare_cases, merge, inter, diff, sym_diff, contains-merge, contains-inter, contains-diff,
  contains-sym_diff, Ascending-merge, Ascending-inter, Ascending-diff, Ascending-sym_diff,
}
use cray_pwrapi.Group.Refine.{
  items-append_rest, items-union_list, items-intersection_list, items-difference_list,
  items-sym_difference_list,
}
use cray_pwrapi.Group.Ops.{
  group_union, group_intersection, group_difference, group_sym_difference, group_copy,
}

length-merge-inter :
    (xs ys : List ℕ) → length (merge xs ys) + length (inter xs ys) ≡ length xs + length ys
unfolding merge inter
length-merge-inter [] ys = omega arith
length-merge-inter (x ∷ xs) [] = omega arith
length-merge-inter (x ∷ xs) (y ∷ ys) = ground (
  arith,
  compare_cases x y,
  length-merge-inter xs (y ∷ ys),
  length-merge-inter xs ys,
  length-merge-inter (x ∷ xs) ys,
)

module _ (g : Sequence) where
  open g use {Seq, items, get_length, get_length_lem}

  -- The call returns 0, and the third group is in ascending order with the members tested for.
  abbrev pub Builds : ℤ × Option Seq → (ℕ → Bool) → Type 0
  Builds r members =
      (out' : Seq) × (r ≡ (pos 0, some out'))
      × Ascending (items out')
      × ((a : ℕ) → contains (items out') a ≡ members a)

  module _ (l1 l2 out : Seq) (sorted1 : Ascending (items l1)) (sorted2 : Ascending (items l2))
      (fresh : items out ≡ []) where
    -- For two groups in ascending order and an empty third one, group_union returns 0 and leaves
    -- the third group in ascending order with the objects that are in the first or in the second.
    pub union_members :
        Builds
          (group_union g (some l1) (some l2) (some out))
          (λ a. contains (items l1) a || contains (items l2) a)
    unfolding group_union
    union_members = (
      union_list g l1 l2 out,
      refl,
      rw (items-union_list g l1 l2 out fresh)
          (Ascending-merge (items l1) (items l2) sorted1 sorted2),
      (λ a. rw (items-union_list g l1 l2 out fresh) (contains-merge (items l1) (items l2) a)),
    )

    -- For two groups in ascending order and an empty third one, group_intersection returns 0 and
    -- leaves the third group in ascending order with the objects that are in both.
    pub intersection_members :
        Builds
          (group_intersection g (some l1) (some l2) (some out))
          (λ a. contains (items l1) a && contains (items l2) a)
    unfolding group_intersection
    intersection_members = (
      intersection_list g l1 l2 out,
      refl,
      rw (items-intersection_list g l1 l2 out fresh)
          (Ascending-inter (items l1) (items l2) sorted1),
      (λ a.
          rw (items-intersection_list g l1 l2 out fresh)
            (contains-inter (items l1) (items l2) a sorted1 sorted2)),
    )

    -- For two groups in ascending order and an empty third one, group_difference returns 0 and
    -- leaves the third group in ascending order with the objects of the first that are not in the
    -- second.
    pub difference_members :
        Builds
          (group_difference g (some l1) (some l2) (some out))
          (λ a. contains (items l1) a && not (contains (items l2) a))
    unfolding group_difference
    difference_members = (
      difference_list g l1 l2 out,
      refl,
      rw (items-difference_list g l1 l2 out fresh) (Ascending-diff (items l1) (items l2) sorted1),
      (λ a.
          rw (items-difference_list g l1 l2 out fresh)
            (contains-diff (items l1) (items l2) a sorted1 sorted2)),
    )

    -- For two groups in ascending order and an empty third one, group_sym_difference returns 0 and
    -- leaves the third group in ascending order with the objects that are in exactly one of them.
    pub sym_difference_members :
        Builds
          (group_sym_difference g (some l1) (some l2) (some out))
          (λ a. xor (contains (items l1) a) (contains (items l2) a))
    unfolding group_sym_difference
    sym_difference_members = (
      sym_difference_list g l1 l2 out,
      refl,
      rw (items-sym_difference_list g l1 l2 out fresh)
          (Ascending-sym_diff (items l1) (items l2) sorted1 sorted2),
      (λ a.
          rw (items-sym_difference_list g l1 l2 out fresh)
            (contains-sym_diff (items l1) (items l2) a sorted1 sorted2)),
    )

  -- For two groups and two empty ones, the group that group_union builds and the group that
  -- group_intersection builds have together as many objects as the two groups.
  pub union_intersection_length :
      (l1 l2 out out' : Seq)
      → items out ≡ []
      → items out' ≡ []
      → get_length (union_list g l1 l2 out) + get_length (intersection_list g l1 l2 out')
        ≡ get_length l1 + get_length l2
  union_intersection_length l1 l2 out out' e e' =
      rw
        (
          get_length_lem (union_list g l1 l2 out),
          get_length_lem (intersection_list g l1 l2 out'),
          get_length_lem l1,
          get_length_lem l2,
          items-union_list g l1 l2 out e,
          items-intersection_list g l1 l2 out' e',
        )
        (length-merge-inter (items l1) (items l2))

  -- For two groups in ascending order and empty groups to build into, the symmetric difference of
  -- the groups holds the same objects in the same order as the union of their two differences.
  pub sym_difference-eq-union_difference :
      (l1 l2 out out1 out2 out3 : Seq)
      → Ascending (items l1)
      → Ascending (items l2)
      → items out ≡ []
      → items out1 ≡ []
      → items out2 ≡ []
      → items out3 ≡ []
      → items (sym_difference_list g l1 l2 out)
        ≡ items (union_list g (difference_list g l1 l2 out1) (difference_list g l2 l1 out2) out3)
  sym_difference-eq-union_difference l1 l2 out out1 out2 out3 s1 s2 e e1 e2 e3 =
      rw
        (
          items-sym_difference_list g l1 l2 out e,
          items-union_list g (difference_list g l1 l2 out1) (difference_list g l2 l1 out2) out3 e3,
          items-difference_list g l1 l2 out1 e1,
          items-difference_list g l2 l1 out2 e2,
        )
        (Ascending-ext (sym_diff xs ys) (merge (diff xs ys) (diff ys xs))
          (Ascending-sym_diff xs ys s1 s2)
          (Ascending-merge (diff xs ys) (diff ys xs) (Ascending-diff xs ys s1)
            (Ascending-diff ys xs s2))
          (λ a. ground (
            arith,
            contains-sym_diff xs ys a s1 s2,
            contains-merge (diff xs ys) (diff ys xs) a,
            contains-diff xs ys a s1 s2,
            contains-diff ys xs a s2 s1,
          )))
    where
      xs : List ℕ
      xs = items l1

      ys : List ℕ
      ys = items l2

  -- group_copy returns 0 and appends the objects of the first group to the second, in order.
  pub copy_items :
      (from to : Seq)
      → (to' : Seq) × (group_copy g (some from) (some to) ≡ (pos 0, some to'))
        × (items to' ≡ items to ++ items from)
  unfolding group_copy
  copy_items from to = (append_rest g (items from) to, refl, items-append_rest g (items from) to)
