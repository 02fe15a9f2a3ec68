-- ===== src/Permissions/Copy.antt =====
-- common/permissions.c, file_copy: the current file becomes a copy of the boot file.
use cray_pwrapi.Base.{
  ℕ, zero, suc, ◌≤◌, ◌≡◌, refl, sym, ap, false, ◌||◌, contains, contains-append, ap₂, Option, none,
  ℤ, ◌∙◌, List, [], ◌∷◌, ◌++◌, true, some, pos, ◌==◌, if◌then◌else◌, length, Bool-cases,
  Option-cases, inl, inr, arith,
}
use cray_pwrapi.Permissions.Files.{
  Files, Access, opened, fgets, fputs, copy_loop, file_copy, restore_permissions_file,
}

fgets-split :
    (room : ℕ) (text : List ℕ)
    → ((fgets room text).0 ++ (fgets room text).1 ≡ text)
      × (length (fgets room text).1 ≤ length text)
unfolding fgets
fgets-split zero text = (refl, omega arith)
fgets-split (suc room) [] = (refl, omega arith)
fgets-split (suc room) (c ∷ cs) =
    let h = fgets-split room cs in
    elim (Bool-cases (c == b'\n')) [
      | inl y ↦ rw y (refl, omega arith)
      | inr n ↦ rw n (ap (λ (rest : List ℕ). c ∷ rest) h.0, omega (arith, h.1))
    ]

-- What the first byte of a chunk leaves.
chunk_shorter : (room c : ℕ) (cs : List ℕ) → length (fgets (suc room) (c ∷ cs)).1 ≤ length cs
unfolding fgets
chunk_shorter room c cs = elim (Bool-cases (c == b'\n')) [
  | inl y ↦ rw y (omega arith)
  | inr n ↦ rw n (fgets-split room cs).1
]

within : (n m k : ℕ) → n ≤ m → suc m ≤ suc k → n ≤ k
within n m k p q = omega arith

-- fputs writes a piece without a NUL in full.
fputs_all : (line : List ℕ) → contains line 0 ≡ false → fputs line ≡ line
unfolding fputs
fputs_all [] h = refl
fputs_all (c ∷ cs) h =
    let text : (c == 0) ≡ false = ground (arith, h) in
    rw text (ap (λ (rest : List ℕ). c ∷ rest) (fputs_all cs (ground (arith, h))))

-- A text without a NUL has none in its pieces.
without_nul :
    (line rest text : List ℕ)
    → line ++ rest ≡ text
    → contains text 0 ≡ false
    → (contains line 0 ≡ false) × (contains rest 0 ≡ false)
without_nul line rest text e h =
    let both : (contains line 0 || contains rest 0) ≡ false =
      sym (contains-append line rest 0) ∙ ap (λ (t : List ℕ). contains t 0) e ∙ h in
    ground (arith, both)

copy_loop-eq :
    (fuel : ℕ) (text : List ℕ)
    → length text ≤ fuel
    → contains text 0 ≡ false
    → copy_loop fuel text ≡ text
unfolding copy_loop
copy_loop-eq zero [] h k = refl
copy_loop-eq zero (c ∷ cs) h k = absurd (omega arith)
copy_loop-eq (suc fuel) [] h k = refl
copy_loop-eq (suc fuel) (c ∷ cs) h k =
    let line = (fgets 31 (c ∷ cs)).0 in
    let rest = (fgets 31 (c ∷ cs)).1 in
    let parts : line ++ rest ≡ c ∷ cs = (fgets-split 31 (c ∷ cs)).0 in
    let plain = without_nul line rest (c ∷ cs) parts k in
    ap₂ (λ (l r : List ℕ). l ++ r) (fputs_all line plain.0)
      (copy_loop-eq fuel rest (within (length rest) (length cs) fuel (chunk_shorter 30 c cs) h)
        plain.1)
    ∙ parts

-- What file_copy does with the source that it could open, or not.
copies_from : Access → Files → Option (List ℕ) → ℤ × Files
copies_from a f none = (pos 1, f)
copies_from a f (some text) =
    if a.write_curr
    then (pos 0, record f { curr = some (copy_loop (length text) text) })
    else (pos 2, f)

file_copy-copies_from :
    (a : Access) (f : Files) → file_copy a f ≡ copies_from a f (opened a.read_boot f.boot)
unfolding file_copy copies_from
file_copy-copies_from a f = elim (Option-cases (opened a.read_boot f.boot)) [
  | inl n ↦ rw (n, file_copy) refl
  | inr (text, e) ↦ rw (e, file_copy) refl
]

-- Where the boot file can be read and has no NUL byte, and the current file can be written: restoring
-- the boot file, which fgets reads in pieces of 31 bytes, returns 0, and the current file then has
-- the same bytes.
pub restore-copies :
    (a : Access) (f : Files) (text : List ℕ)
    → f.boot ≡ some text
    → contains text 0 ≡ false
    → a.read_boot ≡ true
    → a.write_curr ≡ true
    → restore_permissions_file a f ≡ (pos 0, record f { curr = some text })
unfolding restore_permissions_file copies_from
restore-copies a f text boot plain reads writes =
    let readable : opened a.read_boot f.boot ≡ some text = ap₂ opened reads boot in
    file_copy-copies_from a f
    ∙ ap (copies_from a f) readable
    ∙ rw writes (
        ap (λ (t : List ℕ). (pos 0, record f { curr = some t }))
          (copy_loop-eq (length text) text (omega arith) plain))
