-- ===== src/Object/Listed.antt =====
-- lib/bitmask.c and lib/object.c: what is counted and listed of a mask.
use cray_pwrapi.Base.{
  ℕ, zero, suc, ◌+◌, ◌≤◌, ◌≡◌, refl, sym, ap, subst, ◌∙◌, List, [], ◌∷◌, true, false, ◌==◌,
  if◌then◌else◌, length, take, Bool-cases, inl, inr, ◌⊎◌, arith,
}
use cray_pwrapi.Types.{ret_warn_trunc}
use cray_pwrapi.Object.Bits.{
  Bitmask, bitmask_test, num_set_from, bitmask_num_set, attr_list_from, get_attr_list,
}

-- The bits of a mask that are set, of `n` from one on.
unfoldable pub set_bits : ℕ → ℕ → Bitmask → List ℕ
set_bits zero bit mask = []
set_bits (suc n) bit mask =
    let rest = set_bits n (bit + 1) mask in if bitmask_test mask bit then bit ∷ rest else rest

num_set_from_lem :
    (n i : ℕ) (mask : Bitmask) (num : ℕ)
    → num_set_from n i mask num ≡ num + length (set_bits n i mask)
unfolding num_set_from set_bits
num_set_from_lem zero i mask num = omega arith
num_set_from_lem (suc n) i mask num = elim (Bool-cases (bitmask_test mask i)) [
  | inl b ↦ rw b (omega (arith, num_set_from_lem n (i + 1) mask (suc num)))
  | inr b ↦ rw b (num_set_from_lem n (i + 1) mask num)
]

attr_list_from_lem :
    (n bit room : ℕ) (mask : Bitmask)
    → (attr_list_from n bit room mask).1 ≡ take room (set_bits n bit mask)
unfolding attr_list_from set_bits
attr_list_from_lem zero bit zero mask = refl
attr_list_from_lem zero bit (suc room) mask = refl
attr_list_from_lem (suc n) bit zero mask = refl
attr_list_from_lem (suc n) bit (suc room) mask = elim (Bool-cases (bitmask_test mask bit)) [
  | inl b ↦
      rw (b, attr_list_from)
        (ap (λ (l : List ℕ). bit ∷ l) (attr_list_from_lem n (bit + 1) room mask))
  | inr b ↦ rw (b, attr_list_from) (attr_list_from_lem n (bit + 1) (suc room) mask)
]

-- Where the loop stops.
abbrev stop_of : ℕ → ℕ → ℕ → Bitmask → ℕ
stop_of n bit room mask = (attr_list_from n bit room mask).0

stop_of-clear :
    (n bit room : ℕ) (mask : Bitmask)
    → bitmask_test mask bit ≡ false
    → (stop_of (suc n) bit room mask ≡ bit)
      ⊎ (stop_of (suc n) bit room mask ≡ stop_of n (bit + 1) room mask)
unfolding attr_list_from
stop_of-clear n bit zero mask p = inl refl
stop_of-clear n bit (suc room) mask p = inr (rw (p, stop_of, attr_list_from) refl)

stop_of-set :
    (n bit room : ℕ) (mask : Bitmask)
    → bitmask_test mask bit ≡ true
    → stop_of (suc n) bit (suc room) mask ≡ stop_of n (bit + 1) room mask
unfolding attr_list_from
stop_of-set n bit room mask p = rw (p, stop_of, attr_list_from) refl

set_bits-set :
    (n bit : ℕ) (mask : Bitmask)
    → bitmask_test mask bit ≡ true
    → length (set_bits (suc n) bit mask) ≡ suc (length (set_bits n (bit + 1) mask))
unfolding set_bits
set_bits-set n bit mask p = rw p refl

set_bits-clear :
    (n bit : ℕ) (mask : Bitmask)
    → bitmask_test mask bit ≡ false
    → length (set_bits (suc n) bit mask) ≡ length (set_bits n (bit + 1) mask)
unfolding set_bits
set_bits-clear n bit mask p = rw p refl

set_bits-none : (bit : ℕ) (mask : Bitmask) → length (set_bits 0 (bit + 1) mask) ≡ 0
unfolding set_bits
set_bits-none bit mask = refl

stop_of-full : (n bit : ℕ) (mask : Bitmask) → stop_of (suc n) bit 0 mask ≡ bit
unfolding attr_list_from
stop_of-full n bit mask = refl

-- With room for the bits that are set and no more, the loop stops before a last bit that is not set.
stops_early :
    (n bit room : ℕ) (mask : Bitmask)
    → bitmask_test mask (bit + n) ≡ false
    → room ≡ length (set_bits (suc n) bit mask)
    → stop_of (suc n) bit room mask ≤ bit + n
stops_early zero bit room mask p e =
    let clear : bitmask_test mask bit ≡ false = ap (bitmask_test mask) (omega arith) ∙ p in
    let none_set : room ≡ 0 = e ∙ set_bits-clear 0 bit mask clear ∙ set_bits-none bit mask in
    omega (arith, ap (λ r. stop_of 1 bit r mask) none_set ∙ stop_of-full 0 bit mask)
stops_early (suc n) bit room mask p e =
    let later : bitmask_test mask (bit + 1 + n) ≡ false =
      ap (bitmask_test mask) (omega arith) ∙ p in
    elim (Bool-cases (bitmask_test mask bit)) [
      | inl b ↦
          let r = length (set_bits (suc n) (bit + 1) mask) in
          let stop : stop_of (suc (suc n)) bit room mask ≡ stop_of (suc n) (bit + 1) r mask =
            ap (λ k. stop_of (suc (suc n)) bit k mask) (e ∙ set_bits-set (suc n) bit mask b)
            ∙ stop_of-set (suc n) bit r mask b in
          omega (arith, stop, stops_early n (bit + 1) r mask later refl)
      | inr b ↦
          let rest =
            stops_early n (bit + 1) room mask later (e ∙ set_bits-clear (suc n) bit mask b) in
          elim (stop_of-clear (suc n) bit room mask b) [
            | inl here ↦ omega (arith, here)
            | inr there ↦ omega (arith, there, rest)
          ]
    ]

take-length : (xs : List ℕ) → take (length xs) xs ≡ xs
take-length [] = refl
take-length (x ∷ xs) = ap (λ (l : List ℕ). x ∷ l) (take-length xs)

below_differs : (a b n : ℕ) → b ≡ suc n → a ≤ n → (a == b) ≡ false
below_differs a b n e p = ground (arith, e, p)

get_attr_list_lem :
    (mask : Bitmask) (len : ℕ) (l : List ℕ)
    → (stop_of mask.used 0 len mask == mask.used) ≡ false
    → (attr_list_from mask.used 0 len mask).1 ≡ l
    → get_attr_list mask len ≡ (ret_warn_trunc, l)
unfolding get_attr_list
get_attr_list_lem mask len l p e =
    rw (p, get_attr_list) (ap (λ (k : List ℕ). (ret_warn_trunc, k)) e)

-- Where a list of as many bits as bitmask_num_set counts is taken of a mask whose last bit is not set,
-- it is the whole list of the bits that are set, in their order, and the code is nevertheless the
-- warning that the list is not complete.
pub counted_list_truncated :
    (mask : Bitmask) (n : ℕ)
    → mask.used ≡ suc n
    → bitmask_test mask n ≡ false
    → get_attr_list mask (bitmask_num_set mask) ≡ (ret_warn_trunc, set_bits mask.used 0 mask)
unfolding bitmask_num_set
counted_list_truncated mask n u p =
    let count : num_set_from mask.used 0 mask 0 ≡ length (set_bits mask.used 0 mask) =
      num_set_from_lem mask.used 0 mask 0 ∙ omega arith in
    let last : bitmask_test mask (0 + n) ≡ false = ap (bitmask_test mask) (omega arith) ∙ p in
    let below : stop_of mask.used 0 (num_set_from mask.used 0 mask 0) mask ≤ n =
      subst (λ k. (room : ℕ) → room ≡ length (set_bits k 0 mask) → stop_of k 0 room mask ≤ n)
        (sym u) (λ room e. omega (arith, stops_early n 0 room mask last e))
        (num_set_from mask.used 0 mask 0) count in
    get_attr_list_lem mask (num_set_from mask.used 0 mask 0) (set_bits mask.used 0 mask)
      (below_differs _ mask.used n u below)
      (attr_list_from_lem mask.used 0 (num_set_from mask.used 0 mask 0) mask
        ∙ ap (λ k. take k (set_bits mask.used 0 mask)) count
        ∙ take-length (set_bits mask.used 0 mask))
