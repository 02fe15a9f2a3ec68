-- ===== src/PwrList/Access.antt =====
-- lib/pwr_list.c: reading a list of integers, and sorting it.
use cray_pwrapi.Base.{
  ℕ, zero, suc, ◌+◌, ◌<◌, ◌≤◌, ◌≡◌, refl, ap, subst, ◌∙◌, List, [], ◌∷◌, ◌++◌, true, none, some,
  arith, ltb, leb, ◌==◌, ◌⊎◌, inl, inr, ret, length, get_elem?, take, All, Bool-cases, contains,
  decimal, sign_of, length-append,
}
use cray_pwrapi.Glib.SortedList.{LowerThanAll, SortedByRank}
use cray_pwrapi.Types.{ret_success, ret_bad_index}
use cray_pwrapi.PwrList.Array.{
  PwrList, pwr_compare, printed_uint64, values, rest_from, Sorter, pwr_list_sort, value_at_index,
  pwr_list_value_at_index_uint64,
}
use cray_pwrapi.PwrList.Growth.{IsSound, length-take, get_elem?-take}
use cray_pwrapi.PwrList.Extremes.{IsWf}

get_elem?-some : (l : List ℕ) (i : ℕ) → i < length l → (v : ℕ) × (get_elem? l i ≡ some v)
get_elem?-some [] i h = absurd (omega (arith, h))
get_elem?-some (x ∷ xs) zero h = (x, refl)
get_elem?-some (x ∷ xs) (suc i) h = get_elem?-some xs i (omega arith)

All-get : (P : ℕ → Type 0) (l : List ℕ) (i v : ℕ) → All P l → get_elem? l i ≡ some v → P v
All-get P [] i v h e = cc
All-get P (x ∷ xs) zero v h e = let same : x ≡ v = cc in subst P same h.0
All-get P (x ∷ xs) (suc i) v h e = All-get P xs i v h.1 e

-- For a well-formed list and an index below the number of values, the read is within the array, the
-- value is the one that was added as the index says, and its string with the NUL fits into
-- `value_len` bytes. For another index the call returns PWR_RET_BAD_INDEX.
pub value_at_index_fits :
    (l : PwrList) (index : ℕ)
    → IsWf l
    → ((l.num ≤ index)
        × (pwr_list_value_at_index_uint64 true l index true ≡ ret (ret_bad_index, none, none)))
      ⊎ ((v : ℕ) × (pwr_list_value_at_index_uint64 true l index true
            ≡ ret (ret_success, some v, some (decimal v)))
          × (get_elem? (values l) index ≡ some v)
          × (length (decimal v) + 1 ≤ l.value_len))
unfolding pwr_list_value_at_index_uint64 value_at_index printed_uint64
value_at_index_fits l index h = elim (Bool-cases (leb l.num index)) [
  | inl y ↦ inl (ground arith, rw (y, value_at_index) refl)
  | inr n ↦
      let (v, e) = get_elem?-some l.list index (ground (arith, h.sound.full, h.sound.fits)) in
      let stands : get_elem? (values l) index ≡ some v =
        get_elem?-take l.num index l.list (ground arith) ∙ e in
      inr (
        v,
        rw (n, value_at_index) (rw e refl),
        stands,
        omega (
          arith,
          All-get (λ w. printed_uint64 w < l.value_len) (values l) index v h.sound.lens stands,
        ),
      )
]

take-append : (n : ℕ) (xs ys : List ℕ) → length xs ≡ n → take n (xs ++ ys) ≡ xs
take-append zero [] ys h = refl
take-append zero (x ∷ xs) ys h = absurd (omega (arith, h))
take-append (suc n) [] ys h = absurd (omega (arith, h))
take-append (suc n) (x ∷ xs) ys h = ap (λ l. x ∷ l) (take-append n xs ys (omega (arith, h)))

length-rest_from : (n : ℕ) (l : List ℕ) → n ≤ length l → n + length (rest_from n l) ≡ length l
length-rest_from zero l h = omega arith
length-rest_from (suc n) [] h = absurd (omega (arith, h))
length-rest_from (suc n) (x ∷ xs) h = omega (arith, length-rest_from n xs (omega (arith, h)))

compare_numbers : (a b : ℕ) → pwr_compare ltb a b ≡ sign_of a b
unfolding pwr_compare
compare_numbers a b = ground arith

least : (x v : ℕ) (xs : List ℕ) → LowerThanAll (λ v. v) x xs → contains xs v ≡ true → x ≤ v
least x v [] h c = cc
least x v (y ∷ ys) h c = elim (Bool-cases (v == y)) [
  | inl same ↦ ground (arith, h.0)
  | inr other ↦ least x v ys h.1 (ground arith)
]

sorted_first :
    (lo hi : ℕ) (l : List ℕ)
    → SortedByRank (λ v. v) l
    → All (λ v. (lo ≤ v) × (v ≤ hi)) l
    → contains l lo ≡ true
    → get_elem? l 0 ≡ some lo
sorted_first lo hi [] s h c = cc
sorted_first lo hi (x ∷ xs) s h c = elim (Bool-cases (lo == x)) [
  | inl same ↦ ground arith
  | inr other ↦ absurd (ground (arith, h.0.0, least x lo xs s.0 (ground arith)))
]

sorted_last :
    (lo hi n : ℕ) (l : List ℕ)
    → SortedByRank (λ v. v) l
    → All (λ v. (lo ≤ v) × (v ≤ hi)) l
    → contains l hi ≡ true
    → length l ≡ suc n
    → get_elem? l n ≡ some hi
sorted_last lo hi n [] s h c len = cc
sorted_last lo hi zero (x ∷ []) s h c len = ground arith
sorted_last lo hi zero (x ∷ y ∷ ys) s h c len = absurd (omega (arith, len))
sorted_last lo hi (suc n) (x ∷ []) s h c len = absurd (omega (arith, len))
sorted_last lo hi (suc n) (x ∷ y ∷ ys) s h c len =
    sorted_last lo hi n (y ∷ ys) s.1 h.1 there (omega (arith, len))
  where
    there : contains (y ∷ ys) hi ≡ true
    there = elim (Bool-cases (hi == x)) [
      | inl same ↦ ground (arith, s.0.0, h.1.0.1)
      | inr other ↦ ground (arith, c)
    ]

module _ (sorter : Sorter) (l : PwrList) (n : ℕ) (some_values : l.num ≡ suc n) (h : IsWf l) where
  sorted : List ℕ
  sorted = sorter.qsort (pwr_compare ltb) (values l)

  within : l.num ≤ length l.list
  within = omega (arith, h.sound.full, h.sound.fits)

  sorted-length : length sorted ≡ l.num
  unfolding sorted
  sorted-length = sorter.qsort_length (pwr_compare ltb) (values l) ∙ length-take l.num l.list within

  sorted-values : values (pwr_list_sort sorter ltb l) ≡ sorted
  unfolding pwr_list_sort sorted
  sorted-values = take-append l.num sorted (rest_from l.num l.list) sorted-length

  between : All (λ v. (l.min ≤ v) × (v ≤ l.max)) sorted
  unfolding sorted
  between =
      sorter.qsort_all (pwr_compare ltb) (λ v. (l.min ≤ v) × (v ≤ l.max)) (values l)
        h.extremes.between

  ends_there : (contains sorted l.min ≡ true) × (contains sorted l.max ≡ true)
  unfolding sorted
  ends_there = elim h.extremes.attained [
    | inl e ↦ absurd (omega (arith, ap length e, length-take l.num l.list within, some_values))
    | inr (lo, hi) ↦ (
      sorter.qsort_contains (pwr_compare ltb) (values l) l.min ∙ lo,
      sorter.qsort_contains (pwr_compare ltb) (values l) l.max ∙ hi,
    )
  ]

  sort-IsSound : IsSound printed_uint64 l.alloc l.num (pwr_list_sort sorter ltb l).list l.value_len
  unfolding pwr_list_sort sorted
  sort-IsSound = record {
    full =
        length-append sorted (rest_from l.num l.list)
        ∙ omega (arith, sorted-length, length-rest_from l.num l.list within, h.sound.full);
    fits = h.sound.fits;
    bytes = h.sound.bytes;
    lens = rw sorted-values (
        sorter.qsort_all (pwr_compare ltb) (λ v. printed_uint64 v < l.value_len) (values l)
          h.sound.lens);
  }

  -- For a well-formed list with values, pwr_list_sort_uint64 leaves a well-formed list with as many
  -- values, the first of which is `min` and the last of which is `max`.
  pub sort_uint64_ends :
      IsWf (pwr_list_sort sorter ltb l)
      × ((pwr_list_sort sorter ltb l).num ≡ l.num)
      × (get_elem? (values (pwr_list_sort sorter ltb l)) 0 ≡ some l.min)
      × (get_elem? (values (pwr_list_sort sorter ltb l)) n ≡ some l.max)
  unfolding pwr_list_sort sorted
  sort_uint64_ends =
      let (lo, hi) = ends_there in
      let order = sorter.qsort_sorted (pwr_compare ltb) (values l) compare_numbers in
      (
        record {
          sound = sort-IsSound;
          extremes = record {
            between = rw sorted-values between;
            attained = inr (rw sorted-values (lo, hi));
          };
        },
        refl,
        rw sorted-values (sorted_first l.min l.max sorted order between lo),
        rw sorted-values
            (sorted_last l.min l.max n sorted order between hi (sorted-length ∙ some_values)),
      )
