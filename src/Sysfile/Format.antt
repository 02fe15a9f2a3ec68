-- ===== src/Sysfile/Format.antt =====
-- lib/utility.c, _whitespace, _skipspace and _fmtmatch. A text is its bytes without the NUL, and a
-- pointer into it is what is left of it.
use cray_pwrapi.Base.{
  ℕ, zero, suc, List, [], ◌∷◌, Bool, true, false, not, ◌||◌, Option, none, some, ◌==◌,
  if◌then◌else◌, length,
}

abbrev pub whitespace : ℕ → Bool
whitespace c = c == b' ' || c == b'\t' || c == b'\n'

unfoldable pub skipspace : List ℕ → List ℕ
skipspace [] = []
skipspace (c ∷ cs) = let rest = skipspace cs in if whitespace c then rest else c ∷ cs

-- The letters that end a format descriptor.
abbrev pub terminates : ℕ → Bool
terminates c = c == b'd' || c == b'u' || c == b'x' || c == b'f' || c == b's'

-- On to the next '%'.
unfoldable pub to_percent : List ℕ → List ℕ
to_percent [] = []
to_percent (c ∷ cs) = let rest = to_percent cs in if c == b'%' then c ∷ cs else rest

-- The inner loop: `none` is the mismatch, and the end of a descriptor is not passed.
unfoldable pub same_descriptor : List ℕ → List ℕ → Option (List ℕ × List ℕ)
same_descriptor [] str = some ([], str)
same_descriptor (r ∷ ref) [] = some (r ∷ ref, [])
same_descriptor (r ∷ ref) (s ∷ str) =
    let rest = same_descriptor ref str in
    if not (r == s) then none else if terminates r then some (r ∷ ref, s ∷ str) else rest

abbrev pub is_empty : List ℕ → Bool
is_empty [] = true
is_empty (c ∷ cs) = false

-- The outer loop, with fuel; `none` where it does not suffice.
unfoldable pub match_loop : ℕ → List ℕ → List ℕ → Option Bool
unfolding to_percent same_descriptor
match_loop zero ref str = none
match_loop (suc fuel) [] str = some (is_empty str)
match_loop (suc fuel) (r ∷ ref) [] = some false
match_loop (suc fuel) (r ∷ ref) (s ∷ str) =
    elim (same_descriptor (to_percent (r ∷ ref)) (to_percent (s ∷ str))) [
      | none ↦ some false
      | some (ref', str') ↦ match_loop fuel ref' str'
    ]

unfoldable pub fmtmatch : List ℕ → List ℕ → Option Bool
unfolding match_loop
fmtmatch ref str = match_loop (suc (length ref)) ref str
