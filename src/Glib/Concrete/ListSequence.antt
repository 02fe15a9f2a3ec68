-- ===== src/Glib/Concrete/ListSequence.antt =====
-- A sequence that is a list.
use cray_pwrapi.Base.{
  ℕ, zero, suc, ◌≤◌, ◌≡◌, ◌≢◌, refl, List, [], ◌∷◌, ◌++◌, Option, none, some, arith, length,
  get_elem?, remove_at, Sign, same, after, sign_of, sym, ◌∙◌,
}
use cray_pwrapi.Glib.SortedList.{Ranks, LowerThanAll, SortedByRank}
use cray_pwrapi.Glib.Concrete.PlainList.{insert_list, insert_list-Parts, insert_list_order}
use cray_pwrapi.Glib.Sequence.{Sequence, NoneBefore, SortedBy, NoneSame}

unfoldable pub lookup_from : (ℕ → ℕ → Sign) → List ℕ → ℕ → Option ℕ
lookup_from cmp [] x = none
lookup_from cmp (y ∷ ys) x = elim (cmp y x) [
  | same ↦ some 0
  | _ ↦ elim (lookup_from cmp ys x) [ none ↦ none | some i ↦ some (suc i) ]
]

pub lookup_from-some :
    (cmp : ℕ → ℕ → Sign) (l : List ℕ) (x i : ℕ)
    → lookup_from cmp l x ≡ some i
    → (y : ℕ) × (get_elem? l i ≡ some y) × (cmp y x ≡ same)
unfolding lookup_from
lookup_from-some cmp [] x i h = cc
lookup_from-some cmp (y ∷ ys) x zero h = (y, refl, ground arith)
lookup_from-some cmp (y ∷ ys) x (suc i) h = lookup_from-some cmp ys x i (ground arith)

pub lookup_from-none :
    (cmp : ℕ → ℕ → Sign) (l : List ℕ) (x : ℕ)
    → SortedBy cmp l
    → lookup_from cmp l x ≡ none
    → NoneSame cmp x l
unfolding lookup_from
lookup_from-none cmp [] x s h = tt
lookup_from-none cmp (y ∷ ys) x s h = (ground arith, lookup_from-none cmp ys x s.1 (ground arith))

Ranks-of :
    (cmp : ℕ → ℕ → Sign) (rank : ℕ → ℕ) (x : ℕ) (l : List ℕ)
    → ((a b : ℕ) → cmp a b ≡ sign_of (rank a) (rank b))
    → Ranks cmp rank x l
Ranks-of cmp rank x [] h = tt
Ranks-of cmp rank x (y ∷ ys) h = (h x y, Ranks-of cmp rank x ys h)

le_of_not_after : (m n : ℕ) → sign_of m n ≢ after → m ≤ n
le_of_not_after m n h = ground arith

not_after_of_le : (m n : ℕ) → m ≤ n → sign_of m n ≢ after
not_after_of_le m n h = ground arith

module _ (cmp : ℕ → ℕ → Sign) (rank : ℕ → ℕ)
    (h : (a b : ℕ) → cmp a b ≡ sign_of (rank a) (rank b)) where
  lower_of : (x : ℕ) (l : List ℕ) → NoneBefore cmp x l → LowerThanAll rank (rank x) l
  lower_of x [] k = tt
  lower_of x (y ∷ ys) k =
      (le_of_not_after (rank x) (rank y) (λ e. k.0 (h x y ∙ e)), lower_of x ys k.1)

  NoneBefore-of : (x : ℕ) (l : List ℕ) → LowerThanAll rank (rank x) l → NoneBefore cmp x l
  NoneBefore-of x [] k = tt
  NoneBefore-of x (y ∷ ys) k =
      ((λ e. not_after_of_le (rank x) (rank y) k.0 (sym (h x y) ∙ e)), NoneBefore-of x ys k.1)

  sorted_by_rank : (l : List ℕ) → SortedBy cmp l → SortedByRank rank l
  sorted_by_rank [] k = tt
  sorted_by_rank (x ∷ xs) k = (lower_of x xs k.0, sorted_by_rank xs k.1)

  sorted_by : (l : List ℕ) → SortedByRank rank l → SortedBy cmp l
  sorted_by [] k = tt
  sorted_by (x ∷ xs) k = (NoneBefore-of x xs k.0, sorted_by xs k.1)

  pub insert_list-SortedBy :
      (l : List ℕ) (x : ℕ) → SortedBy cmp l → SortedBy cmp (insert_list cmp l x)
  insert_list-SortedBy l x k =
      sorted_by (insert_list cmp l x)
        (insert_list_order rank cmp l x (Ranks-of cmp rank x l h) (sorted_by_rank l k))

pub insert_sorted_law :
    (cmp : ℕ → ℕ → Sign) (rank : ℕ → ℕ) (l : List ℕ) (x : ℕ)
    → ((a b : ℕ) → cmp a b ≡ sign_of (rank a) (rank b))
    → SortedBy cmp l
    → (front back : List ℕ) × (l ≡ front ++ back)
      × (insert_list cmp l x ≡ front ++ x ∷ back)
      × SortedBy cmp (insert_list cmp l x)
insert_sorted_law cmp rank l x h k =
    let (front, back, parts, result) = insert_list-Parts cmp l x in
    (front, back, parts, result, insert_list-SortedBy cmp rank h l x k)

abbrev pub list_sequence : Sequence
list_sequence = record {
  Seq = List ℕ;
  items = λ l. l;
  new = [];
  append = λ l x. l ++ x ∷ [];
  get_length = length;
  remove = remove_at;
  lookup = lookup_from;
  insert_sorted = insert_list;
  items-new = refl;
  items-append = λ l x. refl;
  get_length_lem = λ l. refl;
  items-remove = λ l i. refl;
  lookup-some = lookup_from-some;
  lookup-none = lookup_from-none;
  items-insert_sorted = insert_sorted_law;
}
