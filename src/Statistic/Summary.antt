-- ===== src/Statistic/Summary.antt =====
-- lib/statistics.c: what the reduction of a statistic of the minimum or the maximum says of all the
-- readings.
use cray_pwrapi.Base.{
  ℕ, zero, suc, ◌≡◌, refl, sym, ap, ◌∙◌, subst, List, [], ◌∷◌, true, false, none, some, ℤ,
  get_elem?, inl, inr, ◌⊎◌, arith, All, ltb, length,
}
use cray_pwrapi.Types.{AttrStat}
use cray_pwrapi.Statistic.Calculate.{Floats, Cell, Sample}
use cray_pwrapi.Statistic.Calls.{Reduction, first_result}
use cray_pwrapi.Statistic.Rounds.{Kept}
use cray_pwrapi.Statistic.Extremes.{
  IsOrder, Extreme, beats, worst, beats_through, IsBest, heard_from,
}
use cray_pwrapi.Statistic.Reduced.{Progress}

module _ (f : Floats) where
  -- What a reduction says of the readings of all the objects, by their indices: none beats the result,
  -- which is a reading of the object of the index, with its time, or the value to start from.
  pub record Summary {op : AttrStat} (x : Extreme op) (count : ℕ) (rounds : List (ℤ × List Sample))
      (r : Reduction) : Type 0 where
    pub unbeaten :
        (i : ℕ)
        → ltb i count ≡ true
        → All (λ (s : Sample). beats f x s.0 r.result ≡ false) (heard_from i rounds [])
    pub origin :
        ((r.index ≡ none) × (r.result ≡ worst f x))
        ⊎ ((i : ℕ) × ((r.index ≡ some i)
              × ((r.result ≡ worst f x)
                  ⊎ ((k : ℕ) × ((t : ℕ) × ((get_elem? (heard_from i rounds []) k
                            ≡ some (r.result, t))
                          × (r.instant ≡ some t)))))))

  get_some :
      (cs : List Cell) (i : ℕ) → ltb i (length cs) ≡ true → (c : Cell) × (get_elem? cs i ≡ some c)
  get_some [] i p = ground (arith, p)
  get_some (c ∷ cs) zero p = (c, refl)
  get_some (c ∷ cs) (suc i) p = get_some cs i (ground (arith, p))

  All-through :
      (o : IsOrder f) {op : AttrStat} (x : Extreme op) (v w : ℕ) (heard : List Sample)
      → o.nan v ≡ false
      → beats f x v w ≡ false
      → All (λ (s : Sample). beats f x s.0 v ≡ false) heard
      → All (λ (s : Sample). beats f x s.0 w ≡ false) heard
  All-through o x v w [] n p h = tt
  All-through o x v w (s ∷ heard) n p h =
      (beats_through f o x s.0 w v n h.0 p, All-through o x v w heard n p h.1)

  -- The reduction of cells that are the best of their readings.
  pub best-Summary :
      (o : IsOrder f) {op : AttrStat} (x : Extreme op) (cs : List Cell) (count : ℕ)
      (rounds : List (ℤ × List Sample)) (r : Reduction)
      → length cs ≡ count
      → ((i : ℕ) → Kept f o x (heard_from i rounds []) (get_elem? cs i))
      → Progress f x 0 cs (first_result (worst f x)) r
      → Summary x count rounds r
  best-Summary o x cs count rounds r size kept p = record {
    unbeaten = λ i q.
        let (c, e) = get_some cs i (ap (ltb i) size ∙ q) in
        let best : IsBest f o x (heard_from i rounds []) c =
          subst (Kept f o x (heard_from i rounds [])) e (kept i) in
        All-through o x c.value r.result _ best.number (p.unbeaten i c e) best.unbeaten;
    origin = elim p.chosen [
      | inl e ↦ inl (ap (λ (s : Reduction). s.index) e, ap (λ (s : Reduction). s.result) e)
      | inr (j, (c, (e, idx, res, inst))) ↦
          let best : IsBest f o x (heard_from j rounds []) c =
            subst (Kept f o x (heard_from j rounds [])) e (kept j) in
          inr (
            j,
            (
              idx ∙ ap some (omega arith),
              elim best.taken [
                | inl w ↦ inl (res ∙ w)
                | inr (k, t) ↦
                    inr (k, (c.instant, (t ∙ ap (λ v. some (v, c.instant)) (sym res), inst)))
              ],
            ),
          )
    ];
  }
