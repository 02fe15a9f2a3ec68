-- ===== src/PwrList/Strings.antt =====
-- lib/pwr_list.c: the list of strings. A string is its bytes without the NUL; g_strdup gives a copy
-- or fails.
use cray_pwrapi.Base.{
  ℕ, zero, suc, ◌+◌, ◌*◌, ◌%◌, ◌^◌, ◌<◌, ◌≡◌, refl, List, [], ◌∷◌, ◌++◌, Bool, false, Option, none,
  some, arith, leb, if◌then◌else◌, ◌⊎◌, inl, inr, ℤ, Outcome, ret, fault, ◌>>=◌, length, get_elem?,
  take, set, Bool-cases,
}
use cray_pwrapi.Types.{ret_success, ret_failure, ret_bad_index}
use cray_pwrapi.PwrList.Array.{Allocator, grow, note_length, store}
use cray_pwrapi.PwrList.Growth.{IsSound, IsSound-store, store_within, grow_cases}

-- `pwr_list_string_t`
pub record PwrStrings : Type 0 where
  pub alloc : ℕ
  pub num : ℕ
  pub list : List (List ℕ)
  pub value_len : ℕ

unfoldable pub pwr_list_init_string : PwrStrings
pwr_list_init_string = record { alloc = 0; num = 0; list = []; value_len = 0 }

-- The strings are freed, and the array.
unfoldable pub pwr_list_free_string : PwrStrings → PwrStrings
unfolding pwr_list_init_string
pwr_list_free_string list = pwr_list_init_string

-- The array stays as large as it has become where g_strdup fails.
unfoldable pub pwr_list_add_string :
    Allocator (List ℕ) → Bool → PwrStrings → List ℕ → Outcome (ℤ × PwrStrings)
unfolding grow note_length store
pwr_list_add_string a strdup_works l str = elim (grow a l.alloc l.num l.list) [
  | none ↦ ret (ret_failure, l)
  | some (alloc, ptr) ↦
      if strdup_works
      then (do
        list ← store ptr l.num str
        ret (
          ret_success,
          record {
            alloc = alloc;
            num = (l.num + 1) % 2 ^ 64;
            list = list;
            value_len = note_length l.value_len (length str);
          },
        ))
      else ret (ret_failure, record l { alloc = alloc; list = ptr })
]

-- The code, the value if it is wanted, and the string. `string_to_value` is a pointer to a function
-- that gives the 64 bits of a value.
unfoldable pub pwr_list_value_at_index_string :
    PwrStrings → ℕ → Bool → Option (List ℕ → ℕ) → Outcome (ℤ × Option ℕ × Option (List ℕ))
pwr_list_value_at_index_string l index want_value string_to_value =
    if leb l.num index then ret (ret_bad_index, none, none) else elim (get_elem? l.list index) [
      | none ↦ fault
      | some str ↦
          if want_value
          then elim string_to_value [
            | none ↦ ret (ret_failure, none, none)
            | some f ↦ ret (ret_success, some (f str), some str)
          ]
          else ret (ret_success, none, some str)
    ]

abbrev pub strings : PwrStrings → List (List ℕ)
strings l = take l.num l.list

abbrev pub IsSoundStrings : PwrStrings → Type 0
IsSoundStrings l = IsSound length l.alloc l.num l.list l.value_len

get_elem?-set_self :
    (l : List (List ℕ)) (n : ℕ) (str : List ℕ) → n < length l → get_elem? (set l n str) n ≡ some str
get_elem?-set_self [] n str h = absurd (omega (arith, h))
get_elem?-set_self (x ∷ xs) zero str h = refl
get_elem?-set_self (x ∷ xs) (suc n) str h = get_elem?-set_self xs n str (omega arith)

read_stored :
    (alloc num value_len : ℕ) (list : List (List ℕ)) (str : List ℕ)
    → num < length list
    → length list * 8 < 2 ^ 64
    → pwr_list_value_at_index_string
        (record {
          alloc = alloc;
          num = (num + 1) % 2 ^ 64;
          list = set list num str;
          value_len = value_len;
        })
        num
        false
        none
      ≡ ret (ret_success, none, some str)
unfolding pwr_list_value_at_index_string
read_stored alloc num value_len list str h bytes =
    let below : leb ((num + 1) % 2 ^ 64) num ≡ false = ground arith in
    rw (below, pwr_list_value_at_index_string) (rw (get_elem?-set_self list num str h) refl)

-- For a list of strings whose array is as large as the list says, has room for the strings, and is
-- of less than 2 ^ 64 bytes, and in which no string with its NUL is longer than `value_len`:
-- pwr_list_add_string leaves such a list. Either it returns failure and the strings are the ones
-- before, or it returns success, the new string stands behind them, and
-- pwr_list_value_at_index_string gives it back under the next index.
pub add_string_read :
    (a : Allocator (List ℕ)) (strdup_works : Bool) (l : PwrStrings) (str : List ℕ)
    → IsSoundStrings l
    → length str + 1 < 2 ^ 64
    → (l' : PwrStrings) × IsSoundStrings l'
      × (((pwr_list_add_string a strdup_works l str ≡ ret (ret_failure, l'))
            × (strings l' ≡ strings l))
          ⊎ ((pwr_list_add_string a strdup_works l str ≡ ret (ret_success, l'))
              × (strings l' ≡ strings l ++ str ∷ [])
              × (pwr_list_value_at_index_string l' l.num false none
                  ≡ ret (ret_success, none, some str))))
unfolding pwr_list_add_string
add_string_read a strdup_works l str h small =
    elim (grow_cases a l.alloc l.num l.list h.full h.fits h.bytes) [
      | inl e ↦ (l, h, inl (rw (e, pwr_list_add_string) refl, refl))
      | inr (alloc', list', e, full, room, bytes, same) ↦ elim (Bool-cases strdup_works) [
        | inl y ↦
            let (sound, vs) =
              IsSound-store length alloc' l.num l.value_len l.list list' str h.lens same full room
                bytes small in
            (
              record {
                alloc = alloc';
                num = (l.num + 1) % 2 ^ 64;
                list = set list' l.num str;
                value_len = note_length l.value_len (length str);
              },
              sound,
              inr (
                rw (e, pwr_list_add_string)
                    (rw (y, store_within list' l.num str (omega (arith, full))) refl),
                vs,
                read_stored alloc' l.num (note_length l.value_len (length str)) list' str
                    (omega (arith, full)) (omega (arith, full)),
              ),
            )
        | inr n ↦ (
          record l { alloc = alloc'; list = list' },
          record { full = full; fits = omega (arith, room); bytes = bytes; lens = rw same h.lens },
          inl (rw (e, pwr_list_add_string) (rw n refl), same),
        )
      ]
    ]
