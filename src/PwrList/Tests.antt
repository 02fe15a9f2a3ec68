-- ===== src/PwrList/Tests.antt =====
-- Runs of the lists, with an allocator that fills new cells alike and with insertion sort.
use cray_pwrapi.Base.{
  ℕ, zero, suc, ◌+◌, ◌*◌, ◌^◌, ◌<◌, ◌≤◌, ◌≡◌, refl, ap, ◌∙◌, List, [], ◌∷◌, true, Option, none,
  some, arith, ltb, if◌then◌else◌, ◌⊎◌, inl, inr, ret, Bool-cases, ◌||◌, ◌==◌, length, get_elem?,
  take, All, All-insert, contains, decimal, digits_before, Sign, sign_of,
}
use cray_pwrapi.Types.{ret_success, ret_failure, ret_bad_index}
use cray_pwrapi.Glib.SortedList.{Ranks, SortedByRank}
use cray_pwrapi.Glib.Concrete.PlainList.{insert_list, insert_list-Parts, insert_list_order}
use cray_pwrapi.PwrList.Array.{
  Allocator, PwrList, printed_uint64, values, Sorter, pwr_list_add_uint64,
  pwr_list_value_at_index_uint64,
}
use cray_pwrapi.PwrList.Extremes.{IsWf, add_uint64-IsWf}
use cray_pwrapi.PwrList.Access.{value_at_index_fits}
use cray_pwrapi.PwrList.Strings.{pwr_list_init_string, IsSoundStrings}

module _ {A : Type 0} (blank : A) where
  abbrev resize : ℕ → List A → List A
  resize zero l = []
  resize (suc n) [] = blank ∷ resize n []
  resize (suc n) (x ∷ xs) = x ∷ resize n xs

  length-resize : (n : ℕ) (l : List A) → length (resize n l) ≡ n
  length-resize zero l = refl
  length-resize (suc n) [] = ap suc (length-resize n [])
  length-resize (suc n) (x ∷ xs) = ap suc (length-resize n xs)

  take-resize : (k n : ℕ) (l : List A) → k ≤ length l → k ≤ n → take k (resize n l) ≡ take k l
  take-resize zero n l h h' = refl
  take-resize (suc k) zero l h h' = absurd (omega (arith, h'))
  take-resize (suc k) (suc n) [] h h' = absurd (omega (arith, h))
  take-resize (suc k) (suc n) (x ∷ xs) h h' =
      ap (λ l. x ∷ l) (take-resize k n xs (omega arith) (omega arith))

  abbrev reserve : List A → ℕ → Option (List A)
  reserve old n = if ltb (n * 8) (2 ^ 64) then some (resize n old) else none

  reserve_inv :
      (old new : List A) (n : ℕ)
      → reserve old n ≡ some new
      → (new ≡ resize n old) × (n * 8 < 2 ^ 64)
  reserve_inv old new n h = elim (Bool-cases (ltb (n * 8) (2 ^ 64))) [
    | inl y ↦ (cc, ground arith)
    | inr more ↦ cc
  ]

  abbrev plain_allocator : Allocator A
  plain_allocator = record {
    realloc_n = reserve;
    realloc_length = λ old new n h. rw (reserve_inv old new n h).0 (length-resize n old);
    realloc_take = λ old new n k h p q. rw (reserve_inv old new n h).0 (take-resize k n old p q);
    realloc_bytes = λ old new n h. (reserve_inv old new n h).1;
  }

abbrev insertion_sort : (ℕ → ℕ → Sign) → List ℕ → List ℕ
insertion_sort cmp [] = []
insertion_sort cmp (x ∷ xs) = insert_list cmp (insertion_sort cmp xs) x

insert_length :
    (cmp : ℕ → ℕ → Sign) (l : List ℕ) (x : ℕ) → length (insert_list cmp l x) ≡ suc (length l)
unfolding insert_list
insert_length cmp [] x = refl
insert_length cmp (y ∷ ys) x = ground (arith, insert_length cmp ys x)

sort_length : (cmp : ℕ → ℕ → Sign) (l : List ℕ) → length (insertion_sort cmp l) ≡ length l
sort_length cmp [] = refl
sort_length cmp (x ∷ xs) = insert_length cmp (insertion_sort cmp xs) x ∙ ap suc (sort_length cmp xs)

insert_contains :
    (cmp : ℕ → ℕ → Sign) (l : List ℕ) (x a : ℕ)
    → contains (insert_list cmp l x) a ≡ ((a == x) || contains l a)
unfolding insert_list
insert_contains cmp [] x a = refl
insert_contains cmp (y ∷ ys) x a = ground (arith, insert_contains cmp ys x a)

sort_contains :
    (cmp : ℕ → ℕ → Sign) (l : List ℕ) (a : ℕ) → contains (insertion_sort cmp l) a ≡ contains l a
sort_contains cmp [] a = refl
sort_contains cmp (x ∷ xs) a =
    ground (arith, insert_contains cmp (insertion_sort cmp xs) x a, sort_contains cmp xs a)

sort-All :
    (cmp : ℕ → ℕ → Sign) (P : ℕ → Type 0) (l : List ℕ) → All P l → All P (insertion_sort cmp l)
sort-All cmp P [] h = tt
sort-All cmp P (x ∷ xs) h =
    let (front, back, parts, result) = insert_list-Parts cmp (insertion_sort cmp xs) x in
    let rest = sort-All cmp P xs h.1 in
    rw result (All-insert P front back x h.0 (rw (← parts) rest))

all_ranked :
    (cmp : ℕ → ℕ → Sign) (l : List ℕ) (x : ℕ)
    → ((a b : ℕ) → cmp a b ≡ sign_of a b)
    → Ranks cmp (λ v. v) x l
all_ranked cmp [] x h = tt
all_ranked cmp (y ∷ ys) x h = (h x y, all_ranked cmp ys x h)

sort_sorted :
    (cmp : ℕ → ℕ → Sign) (l : List ℕ)
    → ((a b : ℕ) → cmp a b ≡ sign_of a b)
    → SortedByRank (λ v. v) (insertion_sort cmp l)
sort_sorted cmp [] h = tt
sort_sorted cmp (x ∷ xs) h =
    insert_list_order (λ v. v) cmp (insertion_sort cmp xs) x
      (all_ranked cmp (insertion_sort cmp xs) x h) (sort_sorted cmp xs h)

abbrev insertion_sorter : Sorter
insertion_sorter = record {
  qsort = insertion_sort;
  qsort_length = sort_length;
  qsort_contains = sort_contains;
  qsort_all = sort-All;
  qsort_sorted = sort_sorted;
}

abbrev two_values : PwrList
two_values = record {
  alloc = 20;
  num = 2;
  list = resize 0 20 (12 ∷ 3 ∷ []);
  value_len = 3;
  min = 3;
  max = 12;
}

two_values-IsWf : IsWf two_values
unfolding printed_uint64 decimal digits_before
two_values-IsWf = record {
  sound = record {
    full = refl;
    fits = omega arith;
    bytes = omega arith;
    lens = (omega arith, (omega arith, tt));
  };
  extremes = record {
    between = ((omega arith, omega arith), ((omega arith, omega arith), tt));
    attained = inr (refl, refl);
  };
}

add_uint64-IsWf_example :
    (pwr_list_add_uint64 (plain_allocator 0) two_values 100 ≡ ret (ret_failure, two_values))
    ⊎ ((l' : PwrList) × (pwr_list_add_uint64 (plain_allocator 0) two_values 100
          ≡ ret (ret_success, l'))
        × IsWf l'
        × (values l' ≡ 12 ∷ 3 ∷ 100 ∷ []))
add_uint64-IsWf_example = add_uint64-IsWf (plain_allocator 0) two_values 100 two_values-IsWf

value_at_index_fits_example :
    ((2 ≤ 1)
      × (pwr_list_value_at_index_uint64 true two_values 1 true ≡ ret (ret_bad_index, none, none)))
    ⊎ ((v : ℕ) × (pwr_list_value_at_index_uint64 true two_values 1 true
          ≡ ret (ret_success, some v, some (decimal v)))
        × (get_elem? (12 ∷ 3 ∷ []) 1 ≡ some v)
        × (length (decimal v) + 1 ≤ 3))
value_at_index_fits_example = value_at_index_fits two_values 1 two_values-IsWf

init_sound : IsSoundStrings pwr_list_init_string
unfolding pwr_list_init_string
init_sound = record { full = refl; fits = omega arith; bytes = omega arith; lens = tt }
