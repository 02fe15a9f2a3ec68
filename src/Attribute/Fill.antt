-- ===== src/Attribute/Fill.antt =====
-- lib/attributes.c: an array that a loop writes at each index in turn.
use cray_pwrapi.Base.{
  ℕ, zero, suc, ◌+◌, ◌<◌, ◌≡◌, refl, ap, sym, subst, ◌∙◌, List, [], ◌∷◌, false, Option, none, some,
  if◌then◌else◌, get_elem?, ◌==◌, arith,
}
use cray_pwrapi.Object.Tree.{Reading, pwr_tspec_to_nsec}
use cray_pwrapi.Attribute.Single.{Memory}
use cray_pwrapi.Attribute.Reports.{fill, succeeds}

abbrev pub time_at : Option Memory → ℕ → Option ℕ
time_at none k = none
time_at (some ts) k = ts k

module _ {S : Type 0} where
  -- What stands in an element after the reading of its index, if there is one.
  abbrev pub after_each :
      (Reading S → Option ℕ → Option ℕ) → Option (Reading S) → Option ℕ → Option ℕ
  after_each after none old = old
  after_each after (some r) old = after r old

  abbrev pub value_after : Reading S → Option ℕ → Option ℕ
  value_after r old = elim r.value [ none ↦ old | some v ↦ some v ]

  abbrev pub time_after : Reading S → Option ℕ → Option ℕ
  time_after r old =
      if succeeds r then elim r.tspec [ none ↦ none | some t ↦ some (pwr_tspec_to_nsec t) ] else old

module _ {S : Type 0} (put : Memory → ℕ → Reading S → Memory)
    (after : Reading S → Option ℕ → Option ℕ)
    (at_index : (memory : Memory) (i : ℕ) (r : Reading S) → put memory i r i ≡ after r (memory i))
    (elsewhere : (memory : Memory) (i k : ℕ) (r : Reading S)
      → (k == i) ≡ false
      → put memory i r k ≡ memory k) where
  pub fill-before :
      (memory : Memory) (i k : ℕ) (rs : List (Reading S))
      → k < i
      → fill put memory i rs k ≡ memory k
  fill-before memory i k [] h = refl
  fill-before memory i k (r ∷ rs) h =
      fill-before (put memory i r) (i + 1) k rs (omega arith)
      ∙ elsewhere memory i k r (ground arith)

  pub fill-at :
      (memory : Memory) (i j k : ℕ) (rs : List (Reading S))
      → k ≡ i + j
      → fill put memory i rs k ≡ after_each after (get_elem? rs j) (memory k)
  fill-at memory i j k [] e = refl
  fill-at memory i zero k (r ∷ rs) e =
      let here : k ≡ i = omega arith in
      fill-before (put memory i r) (i + 1) k rs (omega arith)
      ∙ subst (λ (k' : ℕ). put memory i r k' ≡ after r (memory k')) (sym here) (at_index memory i r)
  fill-at memory i (suc j) k (r ∷ rs) e =
      fill-at (put memory i r) (i + 1) j k rs (omega arith)
      ∙ ap (after_each after (get_elem? rs j)) (elsewhere memory i k r (ground arith))
