-- ===== src/PwrList/Growth.antt =====
-- lib/pwr_list.c: an array of a list is as large as the list says, holds no more values than it has
-- cells, and no value is printed longer than the list says.
use cray_pwrapi.Base.{
  ℕ, zero, suc, ◌+◌, ◌*◌, ◌%◌, ◌^◌, ◌<◌, ◌≤◌, ◌≡◌, refl, ap, ◌∙◌, List, [], ◌∷◌, ◌++◌, none, some,
  arith, ltb, leb, ◌⊎◌, inl, inr, ret, length, get_elem?, set, take, length-set, All, Bool-cases,
  Option-cases, digits_before, decimal, ◌/◌,
}
use cray_pwrapi.PwrList.Array.{Allocator, grow, note_length, store, printed_uint64}

module _ {A : Type 0} where
  pub take-set_end :
      (n : ℕ) (l : List A) (v : A) → n < length l → take (suc n) (set l n v) ≡ take n l ++ v ∷ []
  take-set_end n [] v h = absurd (omega (arith, h))
  take-set_end zero (x ∷ xs) v h = refl
  take-set_end (suc n) (x ∷ xs) v h = ap (λ l. x ∷ l) (take-set_end n xs v (omega arith))

  pub length-take : (n : ℕ) (l : List A) → n ≤ length l → length (take n l) ≡ n
  length-take zero l h = refl
  length-take (suc n) [] h = absurd (omega (arith, h))
  length-take (suc n) (x ∷ xs) h = ap suc (length-take n xs (omega arith))

  pub get_elem?-take : (n i : ℕ) (l : List A) → i < n → get_elem? (take n l) i ≡ get_elem? l i
  get_elem?-take zero i l h = absurd (omega (arith, h))
  get_elem?-take (suc n) i [] h = refl
  get_elem?-take (suc n) zero (x ∷ xs) h = refl
  get_elem?-take (suc n) (suc i) (x ∷ xs) h = get_elem?-take n i xs (omega arith)

  pub All-end : (P : A → Type 0) (l : List A) (v : A) → All P l → P v → All P (l ++ v ∷ [])
  All-end P [] v h p = (p, tt)
  All-end P (x ∷ xs) v h p = (h.0, All-end P xs v h.1 p)

  pub All-weaken : (P Q : A → Type 0) (l : List A) → ((x : A) → P x → Q x) → All P l → All Q l
  All-weaken P Q [] f h = tt
  All-weaken P Q (x ∷ xs) f h = (f x h.0, All-weaken P Q xs f h.1)

  -- The fields that every list has.
  pub record IsSound (printed : A → ℕ) (alloc num : ℕ) (list : List A) (value_len : ℕ)
      : Type 0 where
    pub full : length list ≡ alloc
    pub fits : num ≤ alloc
    pub bytes : alloc * 8 < 2 ^ 64
    pub lens : All (λ v. printed v < value_len) (take num list)

  pub grow_cases :
      (a : Allocator A) (alloc num : ℕ) (list : List A)
      → length list ≡ alloc
      → num ≤ alloc
      → alloc * 8 < 2 ^ 64
      → (grow a alloc num list ≡ none)
        ⊎ ((alloc' : ℕ) × (list' : List A) × (grow a alloc num list ≡ some (alloc', list'))
            × (length list' ≡ alloc')
            × (num < alloc')
            × (alloc' * 8 < 2 ^ 64)
            × (take num list' ≡ take num list))
  unfolding grow
  grow_cases a alloc num list full fits bytes = elim (Bool-cases (leb alloc num)) [
    | inl y ↦ elim (Option-cases (a.realloc_n list ((alloc + 20) % 2 ^ 64))) [
      | inl e ↦ inl (rw (y, grow) (rw e refl))
      | inr (ptr, e) ↦ inr (
        (alloc + 20) % 2 ^ 64,
        ptr,
        rw (y, grow) (rw e refl),
        a.realloc_length list ptr ((alloc + 20) % 2 ^ 64) e,
        omega arith,
        a.realloc_bytes list ptr ((alloc + 20) % 2 ^ 64) e,
        a.realloc_take list ptr ((alloc + 20) % 2 ^ 64) num e (omega (arith, full)) (omega arith),
      )
    ]
    | inr n ↦ inr (alloc, list, rw (n, grow) refl, full, ground arith, bytes, refl)
  ]

  pub store_within :
      (list : List A) (num : ℕ) (val : A)
      → num < length list
      → store list num val ≡ ret (set list num val)
  unfolding store
  store_within list num val h = ground arith

  pub IsSound-store :
      (printed : A → ℕ) (alloc num value_len : ℕ) (list list' : List A) (val : A)
      → All (λ v. printed v < value_len) (take num list)
      → take num list' ≡ take num list
      → length list' ≡ alloc
      → num < alloc
      → alloc * 8 < 2 ^ 64
      → printed val + 1 < 2 ^ 64
      → IsSound printed alloc
          ((num + 1) % 2 ^ 64)
          (set list' num val)
          (note_length value_len (printed val))
        × (take ((num + 1) % 2 ^ 64) (set list' num val) ≡ take num list ++ val ∷ [])
  unfolding note_length
  IsSound-store printed alloc num value_len list list' val lens same full fits bytes small =
      let next : (num + 1) % 2 ^ 64 ≡ suc num = omega arith in
      let end : take (suc num) (set list' num val) ≡ take num list ++ val ∷ [] =
        take-set_end num list' val (omega (arith, full)) ∙ ap (λ l. l ++ val ∷ []) same in
      (
        record {
          full = length-set list' num val ∙ full;
          fits = omega arith;
          bytes = bytes;
          lens = rw next (
              rw end (
                All-end (λ v. printed v < note_length value_len (printed val)) (take num list) val
                  (All-weaken (λ v. printed v < value_len)
                    (λ v. printed v < note_length value_len (printed val)) (take num list)
                    (λ v h. ground arith) lens)
                  (ground arith)));
        },
        rw next end,
      )

length-digits_before :
    (fuel n : ℕ) (rest : List ℕ) → length (digits_before fuel n rest) ≤ fuel + length rest
unfolding digits_before
length-digits_before zero n rest = omega arith
length-digits_before (suc fuel) n rest =
    let shorter = length-digits_before fuel (n / 10) ((b'0' + n % 10) ∷ rest) in
    elim (Bool-cases (ltb n 10)) [
      | inl y ↦ rw (y, digits_before) (omega arith)
      | inr more ↦ rw (more, digits_before) (omega (arith, shorter))
    ]

pub printed_uint64_le : (v : ℕ) → printed_uint64 v ≤ 20
unfolding printed_uint64 decimal
printed_uint64_le v = omega (arith, length-digits_before 20 v [])
