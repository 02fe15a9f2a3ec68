-- ===== src/Glib/SortedList.antt =====
-- GSList, as daemon/pwrapi_set.c uses it: g_slist_insert_sorted and g_slist_remove.
use cray_pwrapi.Base.{ℕ, ◌≤◌, ◌≡◌, ◌≢◌, List, [], ◌∷◌, ◌++◌, Sign, sign_of}

module _ {A : Type 0} where
  -- On this list the comparison function compares ranks.
  abbrev pub Ranks : (A → A → Sign) → (A → ℕ) → A → List A → Type 0
  Ranks cmp rank x [] = Unit {0}
  Ranks cmp rank x (y ∷ ys) = (cmp x y ≡ sign_of (rank x) (rank y)) × Ranks cmp rank x ys

  abbrev pub LowerThanAll : (A → ℕ) → ℕ → List A → Type 0
  LowerThanAll rank n [] = Unit {0}
  LowerThanAll rank n (y ∷ ys) = (n ≤ rank y) × LowerThanAll rank n ys

  abbrev pub SortedByRank : (A → ℕ) → List A → Type 0
  SortedByRank rank [] = Unit {0}
  SortedByRank rank (x ∷ xs) = LowerThanAll rank (rank x) xs × SortedByRank rank xs

  abbrev pub NotIn : A → List A → Type 0
  NotIn x [] = Unit {0}
  NotIn x (y ∷ ys) = (y ≢ x) × NotIn x ys

pub record SortedList (A : Type 0) : Type 1 where
  pub insert_sorted : (A → A → Sign) → List A → A → List A
  pub remove : List A → A → List A
  -- The new element is put somewhere between the others.
  pub insert_sorted_parts :
      (cmp : A → A → Sign) (l : List A) (x : A)
      → (front back : List A) × (l ≡ front ++ back) × (insert_sorted cmp l x ≡ front ++ x ∷ back)
  -- A list that is in order stays so.
  pub insert_sorted_order :
      (cmp : A → A → Sign) (rank : A → ℕ) (l : List A) (x : A)
      → Ranks cmp rank x l
      → SortedByRank rank l
      → SortedByRank rank (insert_sorted cmp l x)
  -- The first occurrence is removed.
  pub remove_first :
      (front back : List A) (x : A) → NotIn x front → remove (front ++ x ∷ back) x ≡ front ++ back
  pub remove_absent : (l : List A) (x : A) → NotIn x l → remove l x ≡ l
