-- ===== src/PwrList/Extremes.antt =====
-- lib/pwr_list.c: pwr_list_add_uint64 appends a value and keeps the minimum and the maximum.
use cray_pwrapi.Base.{
  ℕ, ◌+◌, ◌%◌, ◌^◌, ◌≤◌, ◌≡◌, refl, sym, List, [], ◌∷◌, ◌++◌, true, false, arith, ltb, ◌==◌, ◌⊎◌,
  inl, inr, ret, length, set, All, Bool-cases, contains, contains-append,
}
use cray_pwrapi.Types.{ret_success, ret_failure}
use cray_pwrapi.PwrList.Array.{
  Allocator, PwrList, note_extremes, note_length, add_value, printed_uint64, pwr_list_add_uint64,
  values,
}
use cray_pwrapi.PwrList.Growth.{
  IsSound, IsSound-store, store_within, grow_cases, length-take, All-end, All-weaken,
  printed_uint64_le,
}

-- The values lie between the minimum and the maximum, and both are values.
pub record HasExtremes (lo hi : ℕ) (vs : List ℕ) : Type 0 where
  pub between : All (λ v. (lo ≤ v) × (v ≤ hi)) vs
  pub attained : (vs ≡ []) ⊎ ((contains vs lo ≡ true) × (contains vs hi ≡ true))

pub record IsWf (l : PwrList) : Type 0 where
  pub sound : IsSound printed_uint64 l.alloc l.num l.list l.value_len
  pub extremes : HasExtremes l.min l.max (values l)

between_weaken :
    (lo hi lo' hi' : ℕ) (vs : List ℕ)
    → lo' ≤ lo
    → hi ≤ hi'
    → All (λ v. (lo ≤ v) × (v ≤ hi)) vs
    → All (λ v. (lo' ≤ v) × (v ≤ hi')) vs
between_weaken lo hi lo' hi' vs p q h =
    All-weaken (λ v. (lo ≤ v) × (v ≤ hi)) (λ v. (lo' ≤ v) × (v ≤ hi')) vs
      (λ v k. (omega (arith, k.0), omega (arith, k.1))) h

contains_end : (vs : List ℕ) (v : ℕ) → contains (vs ++ v ∷ []) v ≡ true
contains_end vs v = rw (contains-append vs (v ∷ []) v) (ground arith)

contains_more : (vs : List ℕ) (v w : ℕ) → contains vs w ≡ true → contains (vs ++ v ∷ []) w ≡ true
contains_more vs v w h = rw (contains-append vs (v ∷ []) w) (ground arith)

-- One more value between new bounds, each of which is the value or the bound before.
extend :
    (lo hi lo' hi' : ℕ) (vs : List ℕ) (val : ℕ)
    → HasExtremes lo hi vs
    → lo' ≤ lo
    → hi ≤ hi'
    → lo' ≤ val
    → val ≤ hi'
    → (lo' ≡ val) ⊎ ((lo' ≡ lo) × (contains vs lo ≡ true))
    → (hi' ≡ val) ⊎ ((hi' ≡ hi) × (contains vs hi ≡ true))
    → HasExtremes lo' hi' (vs ++ val ∷ [])
extend lo hi lo' hi' vs val h p q p' q' a b = record {
  between =
      All-end (λ v. (lo' ≤ v) × (v ≤ hi')) vs val (between_weaken lo hi lo' hi' vs p q h.between)
        (p', q');
  attained = inr (attains lo lo' a, attains hi hi' b);
}
  where
    attains :
        (m m' : ℕ)
        → (m' ≡ val) ⊎ ((m' ≡ m) × (contains vs m ≡ true))
        → contains (vs ++ val ∷ []) m' ≡ true
    attains m m' (inl e) = rw e (contains_end vs val)
    attains m m' (inr (e, c)) = rw e (contains_more vs val m c)

first_extremes :
    (l : PwrList) (val : ℕ)
    → l.num ≡ 0
    → HasExtremes (note_extremes ltb l val).min (note_extremes ltb l val).max (val ∷ [])
unfolding note_extremes
first_extremes l val h =
    rw (h, note_extremes)
      (record {
        between = ((omega arith, omega arith), tt);
        attained = inr (ground arith, ground arith);
      })

pub in_range :
    (lo hi v : ℕ) (vs : List ℕ)
    → All (λ v. (lo ≤ v) × (v ≤ hi)) vs
    → contains vs v ≡ true
    → (lo ≤ v) × (v ≤ hi)
in_range lo hi v [] h c = cc
in_range lo hi v (x ∷ xs) h c = elim (Bool-cases (v == x)) [
  | inl y ↦ (ground (arith, h.0.0, y), ground (arith, h.0.1, y))
  | inr n ↦ in_range lo hi v xs h.1 (ground arith)
]

more_extremes :
    (l : PwrList) (vs : List ℕ) (val : ℕ)
    → (l.num == 0) ≡ false
    → HasExtremes l.min l.max vs
    → contains vs l.min ≡ true
    → contains vs l.max ≡ true
    → HasExtremes (note_extremes ltb l val).min (note_extremes ltb l val).max (vs ++ val ∷ [])
unfolding note_extremes
more_extremes l vs val n h lo hi =
    let ordered = (in_range l.min l.max l.min vs h.between lo).1 in
    elim (Bool-cases (ltb val l.min)) [
      | inl y ↦
          rw (n, note_extremes)
            (rw y (
              extend l.min l.max val l.max vs val h (ground arith) (ground arith) (ground arith)
                (ground (arith, ordered)) (inl refl) (inr (refl, hi))))
      | inr m ↦ elim (Bool-cases (ltb l.max val)) [
        | inl y ↦
            rw (n, note_extremes)
              (rw (m, y)
                (extend l.min l.max l.min val vs val h (ground arith) (ground arith) (ground arith)
                  (ground arith) (inr (refl, lo)) (inl refl)))
        | inr k ↦
            rw (n, note_extremes)
              (rw (m, k)
                (extend l.min l.max l.min l.max vs val h (ground arith) (ground arith)
                  (ground arith) (ground arith) (inr (refl, lo)) (inr (refl, hi))))
      ]
    ]

note_extremes-HasExtremes :
    (l : PwrList) (vs : List ℕ) (val : ℕ)
    → length vs ≡ l.num
    → HasExtremes l.min l.max vs
    → HasExtremes (note_extremes ltb l val).min (note_extremes ltb l val).max (vs ++ val ∷ [])
note_extremes-HasExtremes l [] val len h = first_extremes l val (sym len)
note_extremes-HasExtremes l (v ∷ vs) val len h = elim h.attained [
  | inl e ↦ cc
  | inr (lo, hi) ↦ more_extremes l (v ∷ vs) val (ground (arith, len)) h lo hi
]

-- For a list that is well formed, pwr_list_add_uint64 either returns failure and leaves the list
-- alone, or it returns success, the list is well formed, and the value stands behind the values
-- that were there. Well formed means: the array has as many cells as the list says and is of less
-- than 2 ^ 64 bytes, it has room for the values, no value is printed in `value_len` characters or
-- more, the values lie between `min` and `max`, and both are values unless there are none.
pub add_uint64-IsWf :
    (a : Allocator ℕ) (l : PwrList) (val : ℕ)
    → IsWf l
    → (pwr_list_add_uint64 a l val ≡ ret (ret_failure, l))
      ⊎ ((l' : PwrList) × (pwr_list_add_uint64 a l val ≡ ret (ret_success, l'))
          × IsWf l'
          × (values l' ≡ values l ++ val ∷ []))
unfolding pwr_list_add_uint64 add_value
add_uint64-IsWf a l val h =
    elim (grow_cases a l.alloc l.num l.list h.sound.full h.sound.fits h.sound.bytes) [
      | inl e ↦ inl (rw (e, add_value) refl)
      | inr (alloc', list', e, full, room, bytes, same) ↦
          let (sound, vs) =
            IsSound-store printed_uint64 alloc' l.num l.value_len l.list list' val h.sound.lens same
              full room bytes (omega (arith, printed_uint64_le val)) in
          inr (
            record (note_extremes ltb l val) {
              alloc = alloc';
              num = (l.num + 1) % 2 ^ 64;
              list = set list' l.num val;
              value_len = note_length l.value_len (printed_uint64 val);
            },
            rw (e, add_value) (rw (store_within list' l.num val (omega (arith, full))) refl),
            record {
              sound = sound;
              extremes = rw vs (
                  note_extremes-HasExtremes l (values l) val
                    (length-take l.num l.list (omega (arith, h.sound.full, h.sound.fits)))
                    h.extremes);
            },
            vs,
          )
    ]
