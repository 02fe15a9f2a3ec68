-- ===== src/PwrList/Array.antt =====
-- lib/pwr_list.c and pwr_list.h: the lists and their operations. A `size_t` wraps around at 2 ^ 64,
-- a double is its bit pattern, and a string is its bytes without the NUL.
use cray_pwrapi.Base.{
  ℕ, ◌+◌, ◌*◌, ◌%◌, ◌^◌, ◌<◌, ◌≤◌, ◌≡◌, zero, suc, List, [], ◌∷◌, ◌++◌, Bool, Option, none, some,
  ltb, leb, ◌==◌, if◌then◌else◌, ℤ, Outcome, ret, fault, ◌>>=◌, length, get_elem?, set, take,
  decimal, Sign, before, same, after, All, contains, sign_of,
}
use cray_pwrapi.Glib.SortedList.{SortedByRank}
use cray_pwrapi.Types.{ret_success, ret_failure, ret_bad_index}

-- g_realloc_n for an array whose cells are given: it fails, or gives an array of the size asked
-- for, of no more than 2 ^ 64 bytes, that starts with the old cells as far as it has room.
pub record Allocator (A : Type 0) : Type 0 where
  pub realloc_n : List A → ℕ → Option (List A)
  pub realloc_length : (old new : List A) (n : ℕ) → realloc_n old n ≡ some new → length new ≡ n
  pub realloc_take :
      (old new : List A) (n k : ℕ)
      → realloc_n old n ≡ some new
      → k ≤ length old
      → k ≤ n
      → take k new ≡ take k old
  pub realloc_bytes : (old new : List A) (n : ℕ) → realloc_n old n ≡ some new → n * 8 < 2 ^ 64

-- `pwr_list_uint64_t` and `pwr_list_double_t`; `list` has the cells of the array.
pub record PwrList : Type 0 where
  pub alloc : ℕ
  pub num : ℕ
  pub list : List ℕ
  pub value_len : ℕ
  pub min : ℕ
  pub max : ℕ

-- pwr_list_init_uint64 and pwr_list_init_double
unfoldable pub pwr_list_init : PwrList
pwr_list_init = record { alloc = 0; num = 0; list = []; value_len = 0; min = 0; max = 0 }

-- pwr_list_free_uint64 and pwr_list_free_double
unfoldable pub pwr_list_free : PwrList → PwrList
unfolding pwr_list_init
pwr_list_free list = pwr_list_init

-- Room for one more value: the size and the cells of the array, or `none` where the allocation
-- fails.
unfoldable pub grow : {A : Type 0} → Allocator A → ℕ → ℕ → List A → Option (ℕ × List A)
grow a alloc num list =
    if leb alloc num
    then elim (a.realloc_n list ((alloc + 20) % 2 ^ 64)) [
      | none ↦ none
      | some ptr ↦ some ((alloc + 20) % 2 ^ 64, ptr)
    ]
    else some (alloc, list)

-- `lt` is `<` on the values of the list.
unfoldable pub note_extremes : (ℕ → ℕ → Bool) → PwrList → ℕ → PwrList
note_extremes lt l val =
    if l.num == 0
    then record l { min = val; max = val }
    else if lt val l.min
    then record l { min = val }
    else if lt l.max val
    then record l { max = val }
    else l

-- `value_len` has room for the longest value and the NUL.
unfoldable pub note_length : ℕ → ℕ → ℕ
note_length value_len len = if leb value_len len then (len + 1) % 2 ^ 64 else value_len

-- A write beyond the end of the array is undefined.
unfoldable pub store : {A : Type 0} → List A → ℕ → A → Outcome (List A)
store list num val = if ltb num (length list) then ret (set list num val) else fault

-- `printed` is the length of the value as snprintf writes it.
unfoldable pub add_value :
    Allocator ℕ → (ℕ → ℕ → Bool) → (ℕ → ℕ) → PwrList → ℕ → Outcome (ℤ × PwrList)
unfolding grow note_extremes note_length store
add_value a lt printed l val = elim (grow a l.alloc l.num l.list) [
  | none ↦ ret (ret_failure, l)
  | some (alloc, ptr) ↦ do
    list ← store ptr l.num val
    ret (
      ret_success,
      record (note_extremes lt l val) {
        alloc = alloc;
        num = (l.num + 1) % 2 ^ 64;
        list = list;
        value_len = note_length l.value_len (printed val);
      },
    )
]

-- The length of a number in `%lu`.
unfoldable pub printed_uint64 : ℕ → ℕ
printed_uint64 v = length (decimal v)

unfoldable pub pwr_list_add_uint64 : Allocator ℕ → PwrList → ℕ → Outcome (ℤ × PwrList)
unfolding add_value printed_uint64
pwr_list_add_uint64 a l val = add_value a ltb printed_uint64 l val

-- The order of doubles and the length of a double in `%lf` are the C library's.
unfoldable pub pwr_list_add_double :
    Allocator ℕ → (ℕ → ℕ → Bool) → (ℕ → ℕ) → PwrList → ℕ → Outcome (ℤ × PwrList)
unfolding add_value
pwr_list_add_double a double_lt printed_double l val = add_value a double_lt printed_double l val

-- What a conversion of a string gives: `none` where it fails or leaves a rest of the string.
unfoldable pub pwr_list_add_str_uint64 :
    Allocator ℕ → (List ℕ → Option ℕ) → PwrList → List ℕ → Outcome (ℤ × PwrList)
unfolding pwr_list_add_uint64
pwr_list_add_str_uint64 a strtoull l str = elim (strtoull str) [
  | none ↦ ret (ret_failure, l)
  | some val ↦ pwr_list_add_uint64 a l val
]

unfoldable pub pwr_list_add_str_double :
    Allocator ℕ
    → (ℕ → ℕ → Bool)
    → (ℕ → ℕ)
    → (List ℕ → Option ℕ)
    → PwrList
    → List ℕ
    → Outcome (ℤ × PwrList)
unfolding pwr_list_add_double
pwr_list_add_str_double a double_lt printed_double strtod l str = elim (strtod str) [
  | none ↦ ret (ret_failure, l)
  | some val ↦ pwr_list_add_double a double_lt printed_double l val
]

unfoldable pub pwr_compare : (ℕ → ℕ → Bool) → ℕ → ℕ → Sign
pwr_compare lt a b = if lt a b then before else if lt b a then after else same

-- The values of a list.
abbrev pub values : PwrList → List ℕ
values l = take l.num l.list

-- The cells from an index on.
abbrev pub rest_from : ℕ → List ℕ → List ℕ
rest_from zero l = l
rest_from (suc n) [] = []
rest_from (suc n) (x ∷ xs) = rest_from n xs

-- qsort of the C library with `pwr_compare`: it gives the values it was given, in ascending order
-- where the comparison compares numbers.
pub record Sorter : Type 1 where
  pub qsort : (ℕ → ℕ → Sign) → List ℕ → List ℕ
  pub qsort_length : (cmp : ℕ → ℕ → Sign) (l : List ℕ) → length (qsort cmp l) ≡ length l
  pub qsort_contains :
      (cmp : ℕ → ℕ → Sign) (l : List ℕ) (a : ℕ) → contains (qsort cmp l) a ≡ contains l a
  pub qsort_all : (cmp : ℕ → ℕ → Sign) (P : ℕ → Type 0) (l : List ℕ) → All P l → All P (qsort cmp l)
  pub qsort_sorted :
      (cmp : ℕ → ℕ → Sign) (l : List ℕ)
      → ((a b : ℕ) → cmp a b ≡ sign_of a b)
      → SortedByRank (λ v. v) (qsort cmp l)

-- pwr_list_sort_uint64 and pwr_list_sort_double
unfoldable pub pwr_list_sort : Sorter → (ℕ → ℕ → Bool) → PwrList → PwrList
unfolding pwr_compare
pwr_list_sort sorter lt l = record l {
  list = sorter.qsort (pwr_compare lt) (values l) ++ rest_from l.num l.list;
}

-- The code, the value, and the string if it is asked for. An index in range that is beyond the end
-- of the array is undefined. `print` is what sprintf writes, `none` if it fails.
unfoldable pub value_at_index :
    (ℕ → Option (List ℕ)) → PwrList → ℕ → Bool → Outcome (ℤ × Option ℕ × Option (List ℕ))
value_at_index print l index want_str =
    if leb l.num index then ret (ret_bad_index, none, none) else elim (get_elem? l.list index) [
      | none ↦ fault
      | some v ↦
          if want_str
          then elim (print v) [
            | none ↦ ret (ret_failure, some v, none)
            | some s ↦ ret (ret_success, some v, some s)
          ]
          else ret (ret_success, some v, none)
    ]

-- `works` says whether sprintf succeeds.
unfoldable pub pwr_list_value_at_index_uint64 :
    Bool → PwrList → ℕ → Bool → Outcome (ℤ × Option ℕ × Option (List ℕ))
unfolding value_at_index
pwr_list_value_at_index_uint64 works l index want_str =
    value_at_index (λ v. if works then some (decimal v) else none) l index want_str
