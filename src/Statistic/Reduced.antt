-- ===== src/Statistic/Reduced.antt =====
-- lib/statistics.c: PWR_StatGetReduce with the minimum or the maximum.
use cray_pwrapi.Base.{
  ℕ, zero, suc, ◌+◌, ◌≡◌, refl, ap, ◌∙◌, List, [], ◌∷◌, Bool, true, false, some, get_elem?, inl,
  inr, ◌⊎◌, arith,
}
use cray_pwrapi.Types.{AttrStat}
use cray_pwrapi.Statistic.Calculate.{Floats, Cell}
use cray_pwrapi.Statistic.Calls.{Reduction, select_if, reduce_cell, reduce_loop}
use cray_pwrapi.Statistic.Extremes.{
  IsOrder, Extreme, minimum, maximum, beats, beats_irreflexive, beats_back,
}

module _ (f : Floats) where
  -- The element that a reduction is of, if the indices start at `i`.
  abbrev pub Origin : ℕ → List Cell → Reduction → Type 0
  Origin i cs r' =
      (j : ℕ) × ((c : Cell) × ((get_elem? cs j ≡ some c)
          × (r'.index ≡ some (j + i))
          × (r'.result ≡ c.value)
          × (r'.instant ≡ some c.instant)))

  -- What the loop from an index on does to a reduction.
  pub record Progress {op : AttrStat} (x : Extreme op) (i : ℕ) (cs : List Cell) (r r' : Reduction)
      : Type 0 where
    pub kept : (v : ℕ) → beats f x v r.result ≡ false → beats f x v r'.result ≡ false
    pub unbeaten :
        (j : ℕ) (c : Cell) → get_elem? cs j ≡ some c → beats f x c.value r'.result ≡ false
    pub chosen : (r' ≡ r) ⊎ Origin i cs r'

  -- One element.
  record Chosen {op : AttrStat} (x : Extreme op) (i : ℕ) (c : Cell) (r r1 : Reduction)
      : Type 0 where
    kept : (v : ℕ) → beats f x v r.result ≡ false → beats f x v r1.result ≡ false
    here : beats f x c.value r1.result ≡ false
    origin : (r1 ≡ r) ⊎ (r1 ≡ select_if true i c r)

  select_lem :
      IsOrder f
      → {op : AttrStat} → (x : Extreme op) (i : ℕ) (c : Cell) (r : Reduction) (b : Bool)
      → beats f x c.value r.result ≡ b
      → Chosen x i c r (select_if b i c r)
  select_lem o x i c r true p = record {
    kept = λ v q. beats_back f o x v c.value r.result p q;
    here = beats_irreflexive f o x c.value;
    origin = inr refl;
  }
  select_lem o x i c r false p = record { kept = λ v q. q; here = p; origin = inl refl }

  reduce_cell_lem :
      IsOrder f
      → {op : AttrStat} → (x : Extreme op) (i : ℕ) (c : Cell) (r : Reduction)
      → Chosen x i c r (reduce_cell f op i c r)
  unfolding reduce_cell
  reduce_cell_lem o minimum i c r = select_lem o minimum i c r _ refl
  reduce_cell_lem o maximum i c r = select_lem o maximum i c r _ refl

  unbeaten_cons :
      {op : AttrStat} (x : Extreme op) (v : ℕ) (c : Cell) (cs : List Cell)
      → beats f x c.value v ≡ false
      → ((j : ℕ) (d : Cell) → get_elem? cs j ≡ some d → beats f x d.value v ≡ false)
      → (j : ℕ) (d : Cell) → get_elem? (c ∷ cs) j ≡ some d
      → beats f x d.value v ≡ false
  unbeaten_cons x v c cs here rest zero d e = ground (arith, e, here)
  unbeaten_cons x v c cs here rest (suc j) d e = rest j d e

  Origin-here :
      (i : ℕ) (c : Cell) (cs : List Cell) (r r' : Reduction)
      → r' ≡ select_if true i c r
      → Origin i (c ∷ cs) r'
  Origin-here i c cs r r' e = (
    0,
    (
      c,
      (
        refl,
        ap (λ (s : Reduction). s.index) e ∙ ap some (omega arith),
        ap (λ (s : Reduction). s.result) e,
        ap (λ (s : Reduction). s.instant) e,
      ),
    ),
  )

  Origin-later :
      (i : ℕ) (c : Cell) (cs : List Cell) (r' : Reduction)
      → Origin (i + 1) cs r'
      → Origin i (c ∷ cs) r'
  Origin-later i c cs r' (j, (d, (e, p, q, t))) = (suc j, (d, (e, p ∙ ap some (omega arith), q, t)))

  Origin-cons :
      (i : ℕ) (c : Cell) (cs : List Cell) (r r1 r' : Reduction)
      → (r1 ≡ r) ⊎ (r1 ≡ select_if true i c r)
      → (r' ≡ r1) ⊎ Origin (i + 1) cs r'
      → (r' ≡ r) ⊎ Origin i (c ∷ cs) r'
  Origin-cons i c cs r r1 r' (inl e) (inl e') = inl (e' ∙ e)
  Origin-cons i c cs r r1 r' (inr e) (inl e') = inr (Origin-here i c cs r r' (e' ∙ e))
  Origin-cons i c cs r r1 r' one (inr later) = inr (Origin-later i c cs r' later)

  pub reduce_loop-Progress :
      IsOrder f
      → {op : AttrStat} → (x : Extreme op) (i : ℕ) (cs : List Cell) (r : Reduction)
      → Progress x i cs r (reduce_loop f op i cs r)
  unfolding reduce_loop
  reduce_loop-Progress o x i [] r = record {
    kept = λ v q. q;
    unbeaten = λ j c e. ground (arith, e);
    chosen = inl refl;
  }
  reduce_loop-Progress o {op} x i (c ∷ cs) r =
      let one = reduce_cell_lem o x i c r in
      let rest = reduce_loop-Progress o x (i + 1) cs (reduce_cell f op i c r) in
      record {
        kept = λ v q. rest.kept v (one.kept v q);
        unbeaten = unbeaten_cons x _ c cs (rest.kept c.value one.here) rest.unbeaten;
        chosen = Origin-cons i c cs r _ _ one.origin rest.chosen;
      }
