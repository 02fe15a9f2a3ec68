-- ===== src/Group/Refine.antt =====
-- The set operations of lib/group.c against finite sets: what they leave is the ascending list of
-- the members that the operation names.
use cray_pwrapi.Base.{ℕ, ◌≡◌, sym, ap, ◌∙◌, List, [], ◌∷◌, ◌++◌, arith}
use mathlib.Core.List.{append-nil, append_assoc}
use cray_pwrapi.Glib.Sequence.{Sequence}
use cray_pwrapi.Group.Sets.{compare_cases, merge, inter, diff, sym_diff}
use cray_pwrapi.Group.Walk.{
  append_rest, union_walk, intersection_walk, difference_walk, sym_difference_walk, union_list,
  intersection_list, difference_list, sym_difference_list,
}

module _ (g : Sequence) where
  open g use {Seq, append, items, items-append}

  pub items-append_rest : (xs : List ℕ) (out : Seq) → items (append_rest g xs out) ≡ items out ++ xs
  unfolding append_rest
  items-append_rest [] out = sym (append-nil (items out))
  items-append_rest (x ∷ xs) out =
      rw (items-append_rest xs (append out x), items-append out x)
        (append_assoc (items out) (x ∷ []) xs)

  -- One more element, then the rest of the list.
  step : (x : ℕ) (rest : List ℕ) (out : Seq) → items (append out x) ++ rest ≡ items out ++ x ∷ rest
  step x rest out = rw (items-append out x) (append_assoc (items out) (x ∷ []) rest)

  items-union_walk :
      (xs ys : List ℕ) (out : Seq)
      → let (iter1, iter2, out') = union_walk g xs ys out in
        items (append_rest g iter2 (append_rest g iter1 out')) ≡ items out ++ merge xs ys
  unfolding union_walk merge append_rest
  items-union_walk [] ys out = items-append_rest ys out
  items-union_walk (x ∷ xs) [] out = items-append_rest (x ∷ xs) out
  items-union_walk (x ∷ xs) (y ∷ ys) out = ground (
    arith,
    compare_cases x y,
    items-union_walk xs (y ∷ ys) (append out x),
    items-union_walk xs ys (append out x),
    items-union_walk (x ∷ xs) ys (append out y),
    step x (merge xs (y ∷ ys)) out,
    step x (merge xs ys) out,
    step y (merge (x ∷ xs) ys) out,
  )

  items-intersection_walk :
      (xs ys : List ℕ) (out : Seq)
      → items (intersection_walk g xs ys out) ≡ items out ++ inter xs ys
  unfolding intersection_walk inter
  items-intersection_walk [] ys out = sym (append-nil (items out))
  items-intersection_walk (x ∷ xs) [] out = sym (append-nil (items out))
  items-intersection_walk (x ∷ xs) (y ∷ ys) out = ground (
    arith,
    compare_cases x y,
    items-intersection_walk xs (y ∷ ys) out,
    items-intersection_walk xs ys (append out x),
    items-intersection_walk (x ∷ xs) ys out,
    step x (inter xs ys) out,
  )

  items-difference_walk :
      (xs ys : List ℕ) (out : Seq)
      → let (iter1, out') = difference_walk g xs ys out in
        items (append_rest g iter1 out') ≡ items out ++ diff xs ys
  unfolding difference_walk diff append_rest
  items-difference_walk [] ys out = sym (append-nil (items out))
  items-difference_walk (x ∷ xs) [] out = items-append_rest (x ∷ xs) out
  items-difference_walk (x ∷ xs) (y ∷ ys) out = ground (
    arith,
    compare_cases x y,
    items-difference_walk xs (y ∷ ys) (append out x),
    items-difference_walk xs ys out,
    items-difference_walk (x ∷ xs) ys out,
    step x (diff xs (y ∷ ys)) out,
  )

  items-sym_difference_walk :
      (xs ys : List ℕ) (out : Seq)
      → let (iter1, iter2, out') = sym_difference_walk g xs ys out in
        items (append_rest g iter2 (append_rest g iter1 out')) ≡ items out ++ sym_diff xs ys
  unfolding sym_difference_walk sym_diff append_rest
  items-sym_difference_walk [] ys out = items-append_rest ys out
  items-sym_difference_walk (x ∷ xs) [] out = items-append_rest (x ∷ xs) out
  items-sym_difference_walk (x ∷ xs) (y ∷ ys) out = ground (
    arith,
    compare_cases x y,
    items-sym_difference_walk xs (y ∷ ys) (append out x),
    items-sym_difference_walk xs ys out,
    items-sym_difference_walk (x ∷ xs) ys (append out y),
    step x (sym_diff xs (y ∷ ys)) out,
    step y (sym_diff (x ∷ xs) ys) out,
  )

  module _ (list1 list2 out : Seq) (fresh : items out ≡ []) where
    pub items-union_list : items (union_list g list1 list2 out) ≡ merge (items list1) (items list2)
    unfolding union_list
    items-union_list =
        items-union_walk (items list1) (items list2) out
        ∙ ap (λ o. o ++ merge (items list1) (items list2)) fresh

    pub items-intersection_list :
        items (intersection_list g list1 list2 out) ≡ inter (items list1) (items list2)
    unfolding intersection_list
    items-intersection_list =
        items-intersection_walk (items list1) (items list2) out
        ∙ ap (λ o. o ++ inter (items list1) (items list2)) fresh

    pub items-difference_list :
        items (difference_list g list1 list2 out) ≡ diff (items list1) (items list2)
    unfolding difference_list
    items-difference_list =
        items-difference_walk (items list1) (items list2) out
        ∙ ap (λ o. o ++ diff (items list1) (items list2)) fresh

    pub items-sym_difference_list :
        items (sym_difference_list g list1 list2 out) ≡ sym_diff (items list1) (items list2)
    unfolding sym_difference_list
    items-sym_difference_list =
        items-sym_difference_walk (items list1) (items list2) out
        ∙ ap (λ o. o ++ sym_diff (items list1) (items list2)) fresh
