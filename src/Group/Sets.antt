-- ===== src/Group/Sets.antt =====
-- What the walks of lib/group.c build, as lists: the four set operations on ascending lists.
use cray_pwrapi.Base.{
  ℕ, ◌<◌, ◌≡◌, refl, ◌⊎◌, List, [], ◌∷◌, ◌||◌, ◌&&◌, not, xor, arith, contains, before, same, after,
}
use cray_pwrapi.Group.Sorted.{Above, Ascending, Above-mono, contains-Above}
use cray_pwrapi.Group.Walk.{group_compare_obj}

-- The three results of a comparison, with what each says of the addresses.
pub compare_cases :
    (x y : ℕ)
    → (x < y) × (group_compare_obj x y ≡ before)
      ⊎ (x ≡ y) × (group_compare_obj x y ≡ same)
      ⊎ (y < x) × (group_compare_obj x y ≡ after)
unfolding group_compare_obj
compare_cases x y = ground arith

-- The lists that the walks build, without the sequence.
unfoldable pub merge : List ℕ → List ℕ → List ℕ
merge [] ys = ys
merge (x ∷ xs) [] = x ∷ xs
merge (x ∷ xs) (y ∷ ys) = elim (group_compare_obj x y) [
  | before ↦ x ∷ merge xs (y ∷ ys)
  | same ↦ x ∷ merge xs ys
  | after ↦ y ∷ merge (x ∷ xs) ys
]

pub contains-merge :
    (xs ys : List ℕ) (a : ℕ) → contains (merge xs ys) a ≡ (contains xs a || contains ys a)
unfolding merge
contains-merge [] ys a = refl
contains-merge (x ∷ xs) [] a = ground arith
contains-merge (x ∷ xs) (y ∷ ys) a = ground (
  arith,
  compare_cases x y,
  contains-merge xs (y ∷ ys) a,
  contains-merge xs ys a,
  contains-merge (x ∷ xs) ys a,
)

Above-merge : (b : ℕ) (xs ys : List ℕ) → Above b xs → Above b ys → Above b (merge xs ys)
unfolding merge
Above-merge b [] ys p q = q
Above-merge b (x ∷ xs) [] p q = p
Above-merge b (x ∷ xs) (y ∷ ys) p q = ground (
  arith,
  Above-merge b xs (y ∷ ys) p.1 q,
  Above-merge b xs ys p.1 q.1,
  Above-merge b (x ∷ xs) ys p q.1,
)

pub Ascending-merge : (xs ys : List ℕ) → Ascending xs → Ascending ys → Ascending (merge xs ys)
unfolding merge
Ascending-merge [] ys p q = q
Ascending-merge (x ∷ xs) [] p q = p
Ascending-merge (x ∷ xs) (y ∷ ys) p q = ground (
  arith,
  compare_cases x y,
  Ascending-merge xs (y ∷ ys) p.1 q,
  Ascending-merge xs ys p.1 q.1,
  Ascending-merge (x ∷ xs) ys p q.1,
  Above-mono {a = x} {b = y} ys,
  Above-mono {a = y} {b = x} xs,
  Above-merge x xs (y ∷ ys) p.0,
  Above-merge x xs ys p.0,
  Above-merge y (x ∷ xs) ys,
)

unfoldable pub inter : List ℕ → List ℕ → List ℕ
inter [] ys = []
inter (x ∷ xs) [] = []
inter (x ∷ xs) (y ∷ ys) = elim (group_compare_obj x y) [
  | before ↦ inter xs (y ∷ ys)
  | same ↦ x ∷ inter xs ys
  | after ↦ inter (x ∷ xs) ys
]

-- Needs the order: a member of one list that is passed over does not come later in the other.
pub contains-inter :
    (xs ys : List ℕ) (a : ℕ)
    → Ascending xs
    → Ascending ys
    → contains (inter xs ys) a ≡ (contains xs a && contains ys a)
unfolding inter
contains-inter [] ys a p q = refl
contains-inter (x ∷ xs) [] a p q = ground arith
contains-inter (x ∷ xs) (y ∷ ys) a p q = ground (
  arith,
  compare_cases x y,
  contains-inter xs (y ∷ ys) a p.1 q,
  contains-inter xs ys a p.1 q.1,
  contains-inter (x ∷ xs) ys a p q.1,
  contains-Above x a xs p.0,
  contains-Above y a xs,
  contains-Above x a ys,
  contains-Above y a ys q.0,
)

Above-inter : (b : ℕ) (xs ys : List ℕ) → Above b xs → Above b (inter xs ys)
unfolding inter
Above-inter b [] ys p = tt
Above-inter b (x ∷ xs) [] p = tt
Above-inter b (x ∷ xs) (y ∷ ys) p =
    ground
      (arith, Above-inter b xs (y ∷ ys) p.1, Above-inter b xs ys p.1, Above-inter b (x ∷ xs) ys p)

pub Ascending-inter : (xs ys : List ℕ) → Ascending xs → Ascending (inter xs ys)
unfolding inter
Ascending-inter [] ys p = tt
Ascending-inter (x ∷ xs) [] p = tt
Ascending-inter (x ∷ xs) (y ∷ ys) p = ground (
  arith,
  Ascending-inter xs (y ∷ ys) p.1,
  Ascending-inter xs ys p.1,
  Ascending-inter (x ∷ xs) ys p,
  Above-inter x xs ys p.0,
)

unfoldable pub diff : List ℕ → List ℕ → List ℕ
diff [] ys = []
diff (x ∷ xs) [] = x ∷ xs
diff (x ∷ xs) (y ∷ ys) = elim (group_compare_obj x y) [
  | before ↦ x ∷ diff xs (y ∷ ys)
  | same ↦ diff xs ys
  | after ↦ diff (x ∷ xs) ys
]

pub contains-diff :
    (xs ys : List ℕ) (a : ℕ)
    → Ascending xs
    → Ascending ys
    → contains (diff xs ys) a ≡ (contains xs a && not (contains ys a))
unfolding diff
contains-diff [] ys a p q = refl
contains-diff (x ∷ xs) [] a p q = ground arith
contains-diff (x ∷ xs) (y ∷ ys) a p q = ground (
  arith,
  compare_cases x y,
  contains-diff xs (y ∷ ys) a p.1 q,
  contains-diff xs ys a p.1 q.1,
  contains-diff (x ∷ xs) ys a p q.1,
  contains-Above x a xs p.0,
  contains-Above y a xs,
  contains-Above x a ys,
  contains-Above y a ys q.0,
)

Above-diff : (b : ℕ) (xs ys : List ℕ) → Above b xs → Above b (diff xs ys)
unfolding diff
Above-diff b [] ys p = tt
Above-diff b (x ∷ xs) [] p = p
Above-diff b (x ∷ xs) (y ∷ ys) p =
    ground (arith, Above-diff b xs (y ∷ ys) p.1, Above-diff b xs ys p.1, Above-diff b (x ∷ xs) ys p)

pub Ascending-diff : (xs ys : List ℕ) → Ascending xs → Ascending (diff xs ys)
unfolding diff
Ascending-diff [] ys p = tt
Ascending-diff (x ∷ xs) [] p = p
Ascending-diff (x ∷ xs) (y ∷ ys) p = ground (
  arith,
  Ascending-diff xs (y ∷ ys) p.1,
  Ascending-diff xs ys p.1,
  Ascending-diff (x ∷ xs) ys p,
  Above-diff x xs (y ∷ ys) p.0,
)

unfoldable pub sym_diff : List ℕ → List ℕ → List ℕ
sym_diff [] ys = ys
sym_diff (x ∷ xs) [] = x ∷ xs
sym_diff (x ∷ xs) (y ∷ ys) = elim (group_compare_obj x y) [
  | before ↦ x ∷ sym_diff xs (y ∷ ys)
  | same ↦ sym_diff xs ys
  | after ↦ y ∷ sym_diff (x ∷ xs) ys
]

pub contains-sym_diff :
    (xs ys : List ℕ) (a : ℕ)
    → Ascending xs
    → Ascending ys
    → contains (sym_diff xs ys) a ≡ xor (contains xs a) (contains ys a)
unfolding sym_diff
contains-sym_diff [] ys a p q = ground arith
contains-sym_diff (x ∷ xs) [] a p q = ground arith
contains-sym_diff (x ∷ xs) (y ∷ ys) a p q = ground (
  arith,
  compare_cases x y,
  contains-sym_diff xs (y ∷ ys) a p.1 q,
  contains-sym_diff xs ys a p.1 q.1,
  contains-sym_diff (x ∷ xs) ys a p q.1,
  contains-Above x a xs p.0,
  contains-Above y a xs,
  contains-Above x a ys,
  contains-Above y a ys q.0,
)

Above-sym_diff : (b : ℕ) (xs ys : List ℕ) → Above b xs → Above b ys → Above b (sym_diff xs ys)
unfolding sym_diff
Above-sym_diff b [] ys p q = q
Above-sym_diff b (x ∷ xs) [] p q = p
Above-sym_diff b (x ∷ xs) (y ∷ ys) p q = ground (
  arith,
  Above-sym_diff b xs (y ∷ ys) p.1 q,
  Above-sym_diff b xs ys p.1 q.1,
  Above-sym_diff b (x ∷ xs) ys p q.1,
)

pub Ascending-sym_diff : (xs ys : List ℕ) → Ascending xs → Ascending ys → Ascending (sym_diff xs ys)
unfolding sym_diff
Ascending-sym_diff [] ys p q = q
Ascending-sym_diff (x ∷ xs) [] p q = p
Ascending-sym_diff (x ∷ xs) (y ∷ ys) p q = ground (
  arith,
  compare_cases x y,
  Ascending-sym_diff xs (y ∷ ys) p.1 q,
  Ascending-sym_diff xs ys p.1 q.1,
  Ascending-sym_diff (x ∷ xs) ys p q.1,
  Above-mono {a = x} {b = y} ys,
  Above-mono {a = y} {b = x} xs,
  Above-sym_diff x xs (y ∷ ys) p.0,
  Above-sym_diff y (x ∷ xs) ys,
)
