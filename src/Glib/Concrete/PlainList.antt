-- ===== src/Glib/Concrete/PlainList.antt =====
-- Sorted insertion into a list, before the first element that does not come earlier, and removal
-- of the first occurrence.
use cray_pwrapi.Base.{
  ℕ, ◌≤◌, ◌≡◌, ◌≢◌, refl, sym, ap, List, [], ◌∷◌, ◌++◌, arith, ◌∙◌, Sign, before, same, after,
  sign_of, Sign-cases, inl, inr,
}
use mathlib.Core.Logic.{ite, if_pos, if_neg}
use cray_pwrapi.Glib.SortedList.{Ranks, LowerThanAll, SortedByRank, NotIn, SortedList}

module _ {A : Type 0} where
  unfoldable pub insert_list : (A → A → Sign) → List A → A → List A
  insert_list cmp [] x = x ∷ []
  insert_list cmp (y ∷ ys) x = elim (cmp x y) [ after ↦ y ∷ insert_list cmp ys x | _ ↦ x ∷ y ∷ ys ]

  abbrev Parts : List A → A → List A → Type 0
  Parts l x result =
      (front : List A) × (back : List A) × (l ≡ front ++ back) × (result ≡ front ++ x ∷ back)

  pub insert_list-Parts :
      (cmp : A → A → Sign) (l : List A) (x : A) → Parts l x (insert_list cmp l x)
  unfolding insert_list
  insert_list-Parts cmp [] x = ([], [], refl, refl)
  insert_list-Parts cmp (y ∷ ys) x = elim (Sign-cases (cmp x y)) [
    | inl c ↦ rw (c, insert_list) ([], y ∷ ys, refl, refl)
    | inr (inl c) ↦ rw (c, insert_list) ([], y ∷ ys, refl, refl)
    | inr (inr c) ↦
        let (front, back, parts, result) = insert_list-Parts cmp ys x in
        rw (c, insert_list) (y ∷ front, back, ap (λ l. y ∷ l) parts, ap (λ l. y ∷ l) result)
  ]

  module _ (rank : A → ℕ) where
    LowerThanAll-mono :
        (m n : ℕ) (l : List A) → m ≤ n → LowerThanAll rank n l → LowerThanAll rank m l
    LowerThanAll-mono m n [] h k = tt
    LowerThanAll-mono m n (y ∷ ys) h k = (omega arith, LowerThanAll-mono m n ys h k.1)

    LowerThanAll-insert :
        (cmp : A → A → Sign) (n : ℕ) (l : List A) (x : A)
        → n ≤ rank x
        → LowerThanAll rank n l
        → LowerThanAll rank n (insert_list cmp l x)
    unfolding insert_list
    LowerThanAll-insert cmp n [] x h k = (h, tt)
    LowerThanAll-insert cmp n (y ∷ ys) x h k = elim (Sign-cases (cmp x y)) [
      | inl c ↦ rw (c, insert_list) (h, k)
      | inr (inl c) ↦ rw (c, insert_list) (h, k)
      | inr (inr c) ↦ rw (c, insert_list) (k.0, LowerThanAll-insert cmp n ys x h k.1)
    ]

    le_of_sign : (m n : ℕ) → sign_of m n ≢ after → m ≤ n
    le_of_sign m n h = ground arith

    ge_of_after : (m n : ℕ) → sign_of m n ≡ after → n ≤ m
    ge_of_after m n h = ground arith

    not_after : (s t : Sign) (m n : ℕ) → t ≡ s → t ≡ sign_of m n → s ≢ after → m ≤ n
    not_after s t m n e r h = le_of_sign m n (λ k. h (sym e ∙ r ∙ k))

    put_before :
        (x y : A) (ys : List A)
        → rank x ≤ rank y
        → SortedByRank rank (y ∷ ys)
        → SortedByRank rank (x ∷ y ∷ ys)
    put_before x y ys h s = ((h, LowerThanAll-mono (rank x) (rank y) ys h s.0), s)

    pub insert_list_order :
        (cmp : A → A → Sign) (l : List A) (x : A)
        → Ranks cmp rank x l
        → SortedByRank rank l
        → SortedByRank rank (insert_list cmp l x)
    unfolding insert_list
    insert_list_order cmp [] x r s = (tt, tt)
    insert_list_order cmp (y ∷ ys) x r s = elim (Sign-cases (cmp x y)) [
      | inl c ↦
          rw (c, insert_list)
            (put_before x y ys (not_after before (cmp x y) (rank x) (rank y) c r.0 (λ k. cc)) s)
      | inr (inl c) ↦
          rw (c, insert_list)
            (put_before x y ys (not_after same (cmp x y) (rank x) (rank y) c r.0 (λ k. cc)) s)
      | inr (inr c) ↦
          rw (c, insert_list)
            (
              LowerThanAll-insert cmp (rank y) ys x (ge_of_after (rank x) (rank y) (sym r.0 ∙ c))
                  s.0,
              insert_list_order cmp ys x r.1 s.1,
            )
    ]

module _ {A : Type 0} (d : Discrete A) where
  unfoldable pub remove_list : List A → A → List A
  remove_list [] x = []
  remove_list (y ∷ ys) x = ite (d y x) ys (y ∷ remove_list ys x)

  pub remove_list_first :
      (front back : List A) (x : A)
      → NotIn x front
      → remove_list (front ++ x ∷ back) x ≡ front ++ back
  unfolding remove_list
  remove_list_first [] back x h = rw (if_pos (d x x) refl) refl
  remove_list_first (y ∷ ys) back x h =
      rw (if_neg (d y x) h.0) (ap (λ l. y ∷ l) (remove_list_first ys back x h.1))

  pub remove_list_absent : (l : List A) (x : A) → NotIn x l → remove_list l x ≡ l
  unfolding remove_list
  remove_list_absent [] x h = refl
  remove_list_absent (y ∷ ys) x h =
      rw (if_neg (d y x) h.0) (ap (λ l. y ∷ l) (remove_list_absent ys x h.1))

  abbrev pub plain_list : SortedList A
  plain_list = record {
    insert_sorted = insert_list;
    remove = remove_list;
    insert_sorted_parts = insert_list-Parts;
    insert_sorted_order = λ cmp rank l x. insert_list_order rank cmp l x;
    remove_first = remove_list_first;
    remove_absent = remove_list_absent;
  }
