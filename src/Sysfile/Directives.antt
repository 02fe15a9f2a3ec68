-- ===== src/Sysfile/Directives.antt =====
-- lib/utility.c, _fmtmatch: it returns, and compares the format descriptors of two texts.
use cray_pwrapi.Base.{
  ℕ, zero, suc, ◌<◌, ◌≤◌, ◌≡◌, refl, ap, ap₂, sym, ◌∙◌, List, [], ◌∷◌, Bool, true, false, not, ◌||◌,
  Option, none, some, ◌==◌, ==_iff, subst, if◌then◌else◌, length, bytes_eq, arith, Bool-cases, inl,
  inr,
}
use cray_pwrapi.Sysfile.Format.{
  terminates, to_percent, same_descriptor, is_empty, match_loop, fmtmatch,
}

-- The format descriptors of a text, one after the other: each from a '%' to the letter that ends it.
-- The first argument says whether the text starts within one.
abbrev pub descriptors : Bool → List ℕ → List ℕ
descriptors inside [] = []
descriptors inside (c ∷ cs) =
    let rest = descriptors (if inside then not (terminates c) else c == b'%') cs in
    if inside || c == b'%' then c ∷ rest else rest

-- What the outer loop returns for the rests of two texts.
after : List ℕ → List ℕ → Bool
after [] str = is_empty str
after (r ∷ ref) [] = false
after (r ∷ ref) (s ∷ str) = bytes_eq (descriptors false (r ∷ ref)) (descriptors false (s ∷ str))

-- What the inner loop leaves, for two texts that start within a descriptor.
Agrees : List ℕ → List ℕ → Option (List ℕ × List ℕ) → Type 0
Agrees ref str none = bytes_eq (descriptors true ref) (descriptors true str) ≡ false
Agrees ref str (some (ref', str')) =
    (bytes_eq (descriptors true ref) (descriptors true str) ≡ after ref' str')
    × (length ref' ≤ length ref)

terminates_percent : (c : ℕ) → terminates c ≡ true → (c == b'%') ≡ false
terminates_percent c h = ground (arith, h)

eq_self : (c : ℕ) → (c == c) ≡ true
eq_self c = ground arith

-- Both texts go on with the same letter.
end-Agrees :
    (c : ℕ) (ref str : List ℕ)
    → terminates c ≡ true
    → Agrees (c ∷ ref) (c ∷ str) (some (c ∷ ref, c ∷ str))
unfolding Agrees after
end-Agrees c ref str t = (rw (eq_self c) (rw t (rw (terminates_percent c t) refl)), omega arith)

on-Agrees :
    (c : ℕ) (ref str : List ℕ) (r : Option (List ℕ × List ℕ))
    → terminates c ≡ false
    → Agrees ref str r
    → Agrees (c ∷ ref) (c ∷ str) r
unfolding Agrees
on-Agrees c ref str none t h = rw (eq_self c) (rw t h)
on-Agrees c ref str (some (ref', str')) t h = (rw (eq_self c) (rw t h.0), omega (arith, h.1))

apart-Agrees :
    (r s : ℕ) (ref str : List ℕ)
    → (r == s) ≡ false
    → bytes_eq (descriptors true (r ∷ ref)) (descriptors true (s ∷ str)) ≡ false
apart-Agrees r s ref str n = rw n refl

same_descriptor-Agrees : (ref str : List ℕ) → Agrees ref str (same_descriptor ref str)
unfolding same_descriptor Agrees after
same_descriptor-Agrees [] [] = (refl, omega arith)
same_descriptor-Agrees [] (s ∷ str) = (refl, omega arith)
same_descriptor-Agrees (r ∷ ref) [] = (refl, omega arith)
same_descriptor-Agrees (r ∷ ref) (s ∷ str) = elim (Bool-cases (r == s)) [
  | inr n ↦
      let apart : same_descriptor (r ∷ ref) (s ∷ str) ≡ none = rw n refl in
      subst (Agrees (r ∷ ref) (s ∷ str)) (sym apart) (apart-Agrees r s ref str n)
  | inl y ↦
      let r_is_s : r ≡ s = (==_iff r s).0 y in
      subst (λ (t : ℕ). Agrees (r ∷ ref) (t ∷ str) (same_descriptor (r ∷ ref) (t ∷ str))) r_is_s
        (elim (Bool-cases (terminates r)) [
          | inl t ↦
              let stops : same_descriptor (r ∷ ref) (r ∷ str) ≡ some (r ∷ ref, r ∷ str) =
                rw (eq_self r) (rw t refl) in
              subst (Agrees (r ∷ ref) (r ∷ str)) (sym stops) (end-Agrees r ref str t)
          | inr f ↦
              let goes : same_descriptor (r ∷ ref) (r ∷ str) ≡ same_descriptor ref str =
                rw (eq_self r) (rw f refl) in
              subst (Agrees (r ∷ ref) (r ∷ str)) (sym goes)
                (on-Agrees r ref str (same_descriptor ref str) f (same_descriptor-Agrees ref str))
        ])
]

-- What stands before the next '%' has no part in a descriptor.
data AtPercent : List ℕ → Type 0 where
  nowhere : AtPercent []
  percent : (rest : List ℕ) → AtPercent (b'%' ∷ rest)

to_percent-AtPercent : (text : List ℕ) → AtPercent (to_percent text)
unfolding to_percent
to_percent-AtPercent [] = nowhere
to_percent-AtPercent (c ∷ cs) = elim (Bool-cases (c == b'%')) [
  | inl y ↦ rw y (subst (λ (d : ℕ). AtPercent (d ∷ cs)) (sym ((==_iff c b'%').0 y)) (percent cs))
  | inr n ↦ rw n (to_percent-AtPercent cs)
]

to_percent-descriptors :
    (text : List ℕ) → descriptors false (to_percent text) ≡ descriptors false text
unfolding to_percent
to_percent-descriptors [] = refl
to_percent-descriptors (c ∷ cs) = elim (Bool-cases (c == b'%')) [
  | inl y ↦ let stays : to_percent (c ∷ cs) ≡ c ∷ cs = rw y refl in ap (descriptors false) stays
  | inr n ↦ rw n (to_percent-descriptors cs)
]

length-to_percent : (text : List ℕ) → length (to_percent text) ≤ length text
unfolding to_percent
length-to_percent [] = omega arith
length-to_percent (c ∷ cs) = ground (arith, length-to_percent cs)

Loops : ℕ → Type 0
Loops fuel = (ref str : List ℕ) → length ref < fuel → match_loop fuel ref str ≡ some (after ref str)

-- What follows the inner loop of a round.
go_on : ℕ → Option (List ℕ × List ℕ) → Option Bool
go_on fuel none = some false
go_on fuel (some (ref, str)) = match_loop fuel ref str

go_on-Agrees :
    (fuel : ℕ) (ref str : List ℕ) (r : Option (List ℕ × List ℕ))
    → Loops fuel
    → length ref < fuel
    → Agrees ref str r
    → go_on fuel r ≡ some (bytes_eq (descriptors true ref) (descriptors true str))
unfolding Loops go_on Agrees
go_on-Agrees fuel ref str none ih lt h = ap some (sym h)
go_on-Agrees fuel ref str (some (ref', str')) ih lt h =
    ih ref' str' (omega (arith, h.1)) ∙ ap some (sym h.0)

round_lem :
    (fuel : ℕ) (ref str : List ℕ)
    → Loops fuel
    → 0 < fuel
    → length ref ≤ fuel
    → AtPercent ref
    → AtPercent str
    → go_on fuel (same_descriptor ref str)
      ≡ some (bytes_eq (descriptors false ref) (descriptors false str))
unfolding Loops same_descriptor go_on after match_loop
round_lem fuel ref str ih pos le nowhere nowhere = ih [] [] pos
round_lem fuel ref str ih pos le nowhere (percent t) = ih [] (b'%' ∷ t) pos
round_lem zero ref str ih pos le (percent t) nowhere = absurd (omega arith)
round_lem (suc fuel) ref str ih pos le (percent t) nowhere = refl
round_lem fuel ref str ih pos le (percent t) (percent u) =
    go_on-Agrees fuel t u (same_descriptor t u) ih (omega arith) (same_descriptor-Agrees t u)

go_on_lem :
    (fuel : ℕ) (r : Option (List ℕ × List ℕ))
    → elim r [ none ↦ some false | some (ref, str) ↦ match_loop fuel ref str ] ≡ go_on fuel r
unfolding go_on
go_on_lem fuel none = refl
go_on_lem fuel (some (ref, str)) = refl

match_loop-Loops : (fuel : ℕ) → Loops fuel
unfolding Loops match_loop after go_on
match_loop-Loops zero ref str lt = absurd (omega arith)
match_loop-Loops (suc fuel) [] str lt = refl
match_loop-Loops (suc fuel) (r ∷ ref) [] lt = refl
match_loop-Loops (suc fuel) (r ∷ ref) (s ∷ str) lt =
    go_on_lem fuel (same_descriptor (to_percent (r ∷ ref)) (to_percent (s ∷ str)))
    ∙ round_lem fuel (to_percent (r ∷ ref)) (to_percent (s ∷ str)) (match_loop-Loops fuel)
        (omega arith) (omega (arith, length-to_percent (r ∷ ref))) (to_percent-AtPercent (r ∷ ref))
        (to_percent-AtPercent (s ∷ str))
    ∙ ap₂ (λ (a b : List ℕ). some (bytes_eq a b)) (to_percent-descriptors (r ∷ ref))
        (to_percent-descriptors (s ∷ str))

-- _fmtmatch returns, whatever the two texts are: the fuel of one round for each letter of the first
-- text and one more is enough. Two texts that are not empty match exactly if they have the same
-- format descriptors, one after the other, whatever stands between these.
pub fmtmatch-descriptors :
    (r s : ℕ) (ref str : List ℕ)
    → fmtmatch (r ∷ ref) (s ∷ str)
      ≡ some (bytes_eq (descriptors false (r ∷ ref)) (descriptors false (s ∷ str)))
unfolding fmtmatch Loops after
fmtmatch-descriptors r s ref str =
    match_loop-Loops (suc (length (r ∷ ref))) (r ∷ ref) (s ∷ str) (omega arith)
