-- ===== src/Permissions/Scan.antt =====
-- The conversion "%u" of fscanf and fprintf, on the bytes of a file. A number of more than 64 bits is
-- read as the largest one, and 32 bits of it are stored.
use cray_pwrapi.Base.{
  ℕ, zero, suc, ◌+◌, ◌-◌, ◌*◌, ◌%◌, ◌^◌, List, [], ◌∷◌, ◌++◌, Bool, true, false, ◌&&◌, ◌||◌, Option,
  none, some, ◌==◌, leb, if◌then◌else◌, length, decimal,
}

abbrev pub is_digit : ℕ → Bool
is_digit c = leb b'0' c && leb c b'9'

-- isspace
abbrev pub is_space : ℕ → Bool
is_space c = c == b' ' || leb 9 c && leb c 13

abbrev pub skip_space : List ℕ → List ℕ
skip_space [] = []
skip_space (c ∷ cs) = let rest = skip_space cs in if is_space c then rest else c ∷ cs

-- The digits after `n`.
abbrev pub read_digits : ℕ → List ℕ → ℕ × List ℕ
read_digits n [] = (n, [])
read_digits n (c ∷ cs) =
    let more = read_digits (n * 10 + (c - b'0')) cs in if is_digit c then more else (n, c ∷ cs)

abbrev pub stored : Bool → ℕ → ℕ
stored negative n =
    let bits = if leb n (2 ^ 64 - 1) then n else 2 ^ 64 - 1 in
    (if negative then (2 ^ 64 - bits) % 2 ^ 64 else bits) % 2 ^ 32

-- A sign is passed over; then there must be a digit.
unfoldable pub read_signed : Bool → List ℕ → Option (ℕ × List ℕ)
read_signed negative [] = none
read_signed negative (c ∷ cs) =
    let (n, rest) = read_digits 0 (c ∷ cs) in
    if is_digit c then some (stored negative n, rest) else none

unfoldable pub read_number : List ℕ → Option (ℕ × List ℕ)
unfolding read_signed
read_number [] = none
read_number (c ∷ cs) =
    if c == b'-'
    then read_signed true cs
    else if c == b'+'
    then read_signed false cs
    else read_signed false (c ∷ cs)

unfoldable pub fscanf_uint : List ℕ → Option (ℕ × List ℕ)
unfolding read_number
fscanf_uint text = read_number (skip_space text)

-- What `while (fscanf(fp, "%u", &current) == 1)` reads, with fuel.
unfoldable pub scan_all : ℕ → List ℕ → List ℕ
unfolding fscanf_uint
scan_all zero text = []
scan_all (suc fuel) text = elim (fscanf_uint text) [
  | none ↦ []
  | some (n, rest) ↦ n ∷ scan_all fuel rest
]

-- Every number takes a byte at least.
unfoldable pub numbers : List ℕ → List ℕ
unfolding scan_all
numbers text = scan_all (length text) text

-- fprintf(fp, "%u\n", n)
unfoldable pub print_uint : ℕ → List ℕ
unfolding decimal
print_uint n = decimal n ++ b'\n' ∷ []
