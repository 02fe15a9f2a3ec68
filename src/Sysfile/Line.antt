-- ===== src/Sysfile/Line.antt =====
-- lib/utility.c, configure_sysfiles: one line of the configuration file.
use cray_pwrapi.Base.{ℕ, List, [], ◌∷◌, Bool, ◌&&◌, ◌||◌, ◌==◌, if◌then◌else◌}
use cray_pwrapi.Sysfile.Format.{whitespace, skipspace, is_empty}

-- What the code makes of a line: nothing, an error, or a key and an absolute path.
pub data Line : Type 0 where
  blank malformed : Line
  setting : (key val : List ℕ) → Line

-- Without the bytes at the end that pass a test.
abbrev pub trim : (ℕ → Bool) → List ℕ → List ℕ
trim drops [] = []
trim drops (c ∷ cs) = let rest = trim drops cs in if is_empty rest && drops c then [] else c ∷ rest

-- The key goes on to white space or '='.
unfoldable pub split_key : List ℕ → List ℕ × List ℕ
split_key [] = ([], [])
split_key (c ∷ cs) =
    let (key, rest) = split_key cs in
    if c == b'=' || whitespace c then ([], c ∷ cs) else (c ∷ key, rest)

-- After the '='.
unfoldable pub parse_path : List ℕ → List ℕ → Line
parse_path key [] = malformed
parse_path key (c ∷ cs) = if c == b'/' then setting key (c ∷ cs) else malformed

-- After the key and the white space behind it.
unfoldable pub parse_value : List ℕ → List ℕ → Line
unfolding skipspace parse_path
parse_value key [] = malformed
parse_value key (c ∷ cs) = if c == b'=' then parse_path key (skipspace cs) else malformed

unfoldable pub parse_text : List ℕ → Line
unfolding skipspace split_key parse_value
parse_text [] = blank
parse_text (c ∷ cs) =
    let (key, rest) = split_key (c ∷ cs) in
    if c == b'#' then blank else parse_value key (skipspace rest)

unfoldable pub parse_line : List ℕ → Line
unfolding skipspace parse_text
parse_line buf = parse_text (skipspace (trim whitespace buf))
