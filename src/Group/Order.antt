-- ===== src/Group/Order.antt =====
-- Sorted insertion and removal by position on ascending lists of addresses.
use cray_pwrapi.Base.{
  ℕ, zero, suc, ◌≤◌, ◌<◌, ◌≡◌, ◌≢◌, refl, List, [], ◌∷◌, ◌++◌, true, false, ◌||◌, ◌&&◌, not, some,
  arith, ◌==◌, contains, get_elem?, remove_at, same, after,
}
use cray_pwrapi.Glib.Sequence.{NoneBefore, SortedBy, NoneSame}
use cray_pwrapi.Group.Sorted.{Above, Ascending, contains-Above}
use cray_pwrapi.Group.Walk.{group_compare_obj}

le_of_not_after : (x y : ℕ) → group_compare_obj x y ≢ after → x ≤ y
unfolding group_compare_obj
le_of_not_after x y h = ground arith

ne_of_not_same : (x y : ℕ) → group_compare_obj x y ≢ same → x ≢ y
unfolding group_compare_obj
ne_of_not_same x y h = ground arith

pub eq_of_same : (x y : ℕ) → group_compare_obj x y ≡ same → x ≡ y
unfolding group_compare_obj
eq_of_same x y h = ground arith

not_after_of_lt : (x y : ℕ) → x < y → group_compare_obj x y ≢ after
unfolding group_compare_obj
not_after_of_lt x y h = ground arith

Above-NoneBefore : (x : ℕ) (xs : List ℕ) → Above x xs → NoneBefore group_compare_obj x xs
Above-NoneBefore x [] h = tt
Above-NoneBefore x (y ∷ ys) h = (not_after_of_lt x y h.0, Above-NoneBefore x ys h.1)

-- An ascending list is sorted in GLib's sense.
pub Ascending-SortedBy : (xs : List ℕ) → Ascending xs → SortedBy group_compare_obj xs
Ascending-SortedBy [] h = tt
Ascending-SortedBy (x ∷ xs) h = (Above-NoneBefore x xs h.0, Ascending-SortedBy xs h.1)

-- A list that holds nothing equal to `x` does not contain it.
pub contains-NoneSame :
    (x : ℕ) (xs : List ℕ) → NoneSame group_compare_obj x xs → contains xs x ≡ false
contains-NoneSame x [] h = refl
contains-NoneSame x (y ∷ ys) h = ground (arith, ne_of_not_same y x h.0, contains-NoneSame x ys h.1)

Above-of_both :
    (x : ℕ) (xs : List ℕ)
    → NoneBefore group_compare_obj x xs
    → NoneSame group_compare_obj x xs
    → Above x xs
Above-of_both x [] p q = tt
Above-of_both x (y ∷ ys) p q =
    (ground (arith, le_of_not_after x y p.0, ne_of_not_same y x q.0), Above-of_both x ys p.1 q.1)

-- An element between the two parts of a list, above a bound that the list keeps.
Above-insert :
    (f x : ℕ) (front back : List ℕ) → f < x → Above f (front ++ back) → Above f (front ++ x ∷ back)
Above-insert f x [] back h k = (h, k)
Above-insert f x (y ∷ ys) back h k = (k.0, Above-insert f x ys back h k.1)

lt_of_inserted :
    (f x : ℕ) (front back : List ℕ)
    → NoneBefore group_compare_obj f (front ++ x ∷ back)
    → f ≢ x
    → f < x
lt_of_inserted f x [] back h ne = ground (arith, le_of_not_after f x h.0)
lt_of_inserted f x (y ∷ ys) back h ne = lt_of_inserted f x ys back h.1 ne

-- A new element, put where the list stays sorted, leaves it ascending.
pub Ascending-insert :
    (x : ℕ) (front back : List ℕ)
    → Ascending (front ++ back)
    → NoneSame group_compare_obj x (front ++ back)
    → SortedBy group_compare_obj (front ++ x ∷ back)
    → Ascending (front ++ x ∷ back)
Ascending-insert x [] back p q s = (Above-of_both x back s.0 q, p)
Ascending-insert x (f ∷ fs) back p q s = (
  Above-insert f x fs back (lt_of_inserted f x fs back s.0 (ne_of_not_same f x q.0)) p.0,
  Ascending-insert x fs back p.1 q.1 s.1,
)

pub contains-insert :
    (x a : ℕ) (front back : List ℕ)
    → contains (front ++ x ∷ back) a ≡ ((a == x) || contains (front ++ back) a)
contains-insert x a [] back = refl
contains-insert x a (f ∷ fs) back = ground (arith, contains-insert x a fs back)

Above-remove_at : (b i : ℕ) (xs : List ℕ) → Above b xs → Above b (remove_at xs i)
Above-remove_at b i [] h = tt
Above-remove_at b zero (x ∷ xs) h = h.1
Above-remove_at b (suc i) (x ∷ xs) h = (h.0, Above-remove_at b i xs h.1)

pub Ascending-remove_at : (i : ℕ) (xs : List ℕ) → Ascending xs → Ascending (remove_at xs i)
Ascending-remove_at i [] h = tt
Ascending-remove_at zero (x ∷ xs) h = h.1
Ascending-remove_at (suc i) (x ∷ xs) h = (Above-remove_at x i xs h.0, Ascending-remove_at i xs h.1)

pub contains_of_get : (i x : ℕ) (xs : List ℕ) → get_elem? xs i ≡ some x → contains xs x ≡ true
contains_of_get i x [] e = cc
contains_of_get zero x (y ∷ ys) e = ground arith
contains_of_get (suc i) x (y ∷ ys) e = ground (arith, contains_of_get i x ys)

-- An element stands only once, so removing its position removes it as a member.
pub contains-remove_at :
    (i x a : ℕ) (xs : List ℕ)
    → Ascending xs
    → get_elem? xs i ≡ some x
    → contains (remove_at xs i) a ≡ (contains xs a && not (a == x))
contains-remove_at i x a [] h e = cc
contains-remove_at zero x a (y ∷ ys) h e = ground (arith, contains-Above y a ys h.0)
contains-remove_at (suc i) x a (y ∷ ys) h e =
    ground
      (arith, contains-remove_at i x a ys h.1 e, contains-Above y x ys h.0, contains_of_get i x ys)
