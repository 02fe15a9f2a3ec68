-- ===== src/Permissions/Printed.antt =====
-- common/permissions.c: a file of printed numbers, one to a line, is read back.
use cray_pwrapi.Base.{
  ℕ, zero, suc, ◌+◌, ◌-◌, ◌*◌, ◌/◌, ◌%◌, ◌^◌, ◌<◌, ◌≤◌, ◌≡◌, refl, ap, sym, ◌∙◌, List, [], ◌∷◌,
  ◌++◌, true, false, Option, none, some, ◌==◌, ltb, leb, length, length-append, digits_before,
  decimal, All, ◌⊎◌, inl, inr, Bool-cases, arith, subst,
}
use mathlib.Core.List.{append_assoc}
use cray_pwrapi.Permissions.Scan.{
  is_digit, is_space, read_digits, stored, read_signed, read_number, fscanf_uint, scan_all, numbers,
  print_uint,
}

-- So many digits are enough for a number.
HasDigits : ℕ → ℕ → Type 0
HasDigits zero n = ⊥
HasDigits (suc fuel) n = (n < 10) ⊎ HasDigits fuel (n / 10)

fewer : (fuel n : ℕ) → ltb n 10 ≡ false → HasDigits (suc fuel) n → HasDigits fuel (n / 10)
unfolding HasDigits
fewer fuel n f (inl small) = absurd (ground (arith, f, small))
fewer fuel n f (inr more) = more

one_digit :
    (acc d : ℕ) (rest : List ℕ)
    → d < 10
    → read_digits acc ((b'0' + d) ∷ rest) ≡ read_digits (acc * 10 + d) rest
one_digit acc d rest h =
    let digit : is_digit (b'0' + d) ≡ true = ground (arith, h) in
    rw digit (ap (λ (k : ℕ). read_digits (acc * 10 + k) rest) (omega arith))

read-digits_before :
    (fuel n : ℕ) (rest : List ℕ)
    → HasDigits fuel n
    → read_digits 0 (digits_before fuel n rest) ≡ read_digits n rest
unfolding digits_before HasDigits
read-digits_before zero n rest h = elim h [ ]
read-digits_before (suc fuel) n rest h = elim (Bool-cases (ltb n 10)) [
  | inl y ↦
      rw (y, digits_before)
        (one_digit 0 n rest (ground (arith, y)) ∙ ap (λ (k : ℕ). read_digits k rest) (omega arith))
  | inr f ↦
      rw (f, digits_before)
        (read-digits_before fuel (n / 10) ((b'0' + n % 10) ∷ rest) (fewer fuel n f h)
          ∙ one_digit (n / 10) (n % 10) rest (omega arith)
          ∙ ap (λ (k : ℕ). read_digits k rest) (omega arith))
]

uid-HasDigits : (n : ℕ) → n < 2 ^ 32 → HasDigits 20 n
unfolding HasDigits
uid-HasDigits n h = inr (inr (inr (inr (inr (inr (inr (inr (inr (inl (omega arith))))))))))

-- The first byte of a printed number is a digit.
StartsWithDigit : List ℕ → Type 0
StartsWithDigit text = (c : ℕ) × (rest : List ℕ) × (text ≡ c ∷ rest) × (is_digit c ≡ true)

digits_before-StartsWithDigit :
    (fuel n : ℕ) (rest : List ℕ) → HasDigits fuel n → StartsWithDigit (digits_before fuel n rest)
unfolding digits_before HasDigits StartsWithDigit
digits_before-StartsWithDigit zero n rest h = elim h [ ]
digits_before-StartsWithDigit (suc fuel) n rest h = elim (Bool-cases (ltb n 10)) [
  | inl y ↦ rw (y, digits_before) (b'0' + n, rest, refl, ground (arith, y))
  | inr f ↦
      rw (f, digits_before)
        (digits_before-StartsWithDigit fuel (n / 10) ((b'0' + n % 10) ∷ rest) (fewer fuel n f h))
]

digits_before-append :
    (fuel n : ℕ) (a b : List ℕ) → digits_before fuel n a ++ b ≡ digits_before fuel n (a ++ b)
unfolding digits_before
digits_before-append zero n a b = refl
digits_before-append (suc fuel) n a b = elim (Bool-cases (ltb n 10)) [
  | inl y ↦ rw (y, digits_before) refl
  | inr f ↦ rw (f, digits_before) (digits_before-append fuel (n / 10) ((b'0' + n % 10) ∷ a) b)
]

-- A text that starts with a digit, after white space or not.
digit_plain :
    (c : ℕ)
    → is_digit c ≡ true
    → (is_space c ≡ false) × ((c == b'-') ≡ false) × ((c == b'+') ≡ false)
digit_plain c h = (ground (arith, h), ground (arith, h), ground (arith, h))

scan_digits :
    (text : List ℕ)
    → StartsWithDigit text
    → fscanf_uint text ≡ some (stored false (read_digits 0 text).0, (read_digits 0 text).1)
unfolding fscanf_uint read_number read_signed StartsWithDigit
scan_digits text (c, rest, e, digit) =
    let (space, minus, plus) = digit_plain c digit in
    subst
      (λ (t : List ℕ). fscanf_uint t ≡ some (stored false (read_digits 0 t).0, (read_digits 0 t).1))
      (sym e) (rw space (rw minus (rw plus (rw digit refl))))

pub scan-print :
    (n : ℕ) (rest : List ℕ)
    → n < 2 ^ 32
    → fscanf_uint (print_uint n ++ rest) ≡ some (n, b'\n' ∷ rest)
unfolding print_uint decimal
scan-print n rest h =
    let text : print_uint n ++ rest ≡ digits_before 20 n (b'\n' ∷ rest) =
      append_assoc (digits_before 20 n []) (b'\n' ∷ []) rest
      ∙ digits_before-append 20 n [] (b'\n' ∷ rest) in
    let fits : stored false n ≡ n =
      let le : leb n (2 ^ 64 - 1) ≡ true = ground (arith, h) in rw le (omega (arith, h)) in
    ap fscanf_uint text
    ∙ scan_digits (digits_before 20 n (b'\n' ∷ rest))
        (digits_before-StartsWithDigit 20 n (b'\n' ∷ rest) (uid-HasDigits n h))
    ∙ ap (λ (r : ℕ × List ℕ). some (stored false r.0, r.1))
        (read-digits_before 20 n (b'\n' ∷ rest) (uid-HasDigits n h))
    ∙ ap (λ (k : ℕ). some (k, b'\n' ∷ rest)) fits

-- A file of numbers.
abbrev pub print_all : List ℕ → List ℕ
print_all [] = []
print_all (uid ∷ uids) = print_uint uid ++ print_all uids

abbrev pub AreUids : List ℕ → Type 0
AreUids uids = All (λ (uid : ℕ). uid < 2 ^ 32) uids

newline : (text : List ℕ) → fscanf_uint (b'\n' ∷ text) ≡ fscanf_uint text
unfolding fscanf_uint
newline text = refl

scan_all-print :
    (fuel : ℕ) (uids text : List ℕ)
    → length uids ≤ fuel
    → AreUids uids
    → fscanf_uint text ≡ fscanf_uint (print_all uids)
    → scan_all fuel text ≡ uids
unfolding scan_all
scan_all-print zero [] text le small e = refl
scan_all-print zero (uid ∷ uids) text le small e = absurd (omega arith)
scan_all-print (suc fuel) [] text le small e = ap next e
  where
    next : Option (ℕ × List ℕ) → List ℕ
    next r = elim r [ none ↦ [] | some (n, rest) ↦ n ∷ scan_all fuel rest ]
scan_all-print (suc fuel) (uid ∷ uids) text le small e =
    ap next (e ∙ scan-print uid (print_all uids) small.0)
    ∙ ap (λ (rest : List ℕ). uid ∷ rest)
        (scan_all-print fuel uids (b'\n' ∷ print_all uids) (omega arith) small.1
          (newline (print_all uids)))
  where
    next : Option (ℕ × List ℕ) → List ℕ
    next r = elim r [ none ↦ [] | some (n, rest) ↦ n ∷ scan_all fuel rest ]

length-print_all : (uids : List ℕ) → length uids ≤ length (print_all uids)
unfolding print_uint
length-print_all [] = omega arith
length-print_all (uid ∷ uids) = omega (
  arith,
  length-append (print_uint uid) (print_all uids),
  length-append (decimal uid) (b'\n' ∷ []),
  length-print_all uids,
)

-- The numbers that are read from a file are those printed to it.
pub numbers-print_all : (uids : List ℕ) → AreUids uids → numbers (print_all uids) ≡ uids
unfolding numbers
numbers-print_all uids small =
    scan_all-print (length (print_all uids)) uids (print_all uids) (length-print_all uids) small
      refl

pub print_all-append : (a b : List ℕ) → print_all (a ++ b) ≡ print_all a ++ print_all b
print_all-append [] b = refl
print_all-append (uid ∷ a) b =
    ap (λ (rest : List ℕ). print_uint uid ++ rest) (print_all-append a b)
    ∙ sym (append_assoc (print_uint uid) (print_all a) (print_all b))
