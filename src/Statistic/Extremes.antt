-- ===== src/Statistic/Extremes.antt =====
-- lib/statistics.c: the order of the readings, and what one cell of a statistic of the minimum or the
-- maximum keeps of them.
use cray_pwrapi.Base.{
  ℕ, suc, ◌≡◌, refl, List, [], ◌∷◌, Bool, true, false, Option, none, some, ℤ, int_eq, if◌then◌else◌,
  get_elem?, Bool-cases, inl, inr, ◌⊎◌, All, arith,
}
use cray_pwrapi.Types.{AttrStat, stat_min, stat_max, ret_success}
use cray_pwrapi.Statistic.Calculate.{Floats, Cell, Sample, keep_if, calculate_cell}

-- The order of doubles, where a comparison with NaN is false.
pub record IsOrder (f : Floats) : Type 0 where
  pub irreflexive : (a : ℕ) → f.lt a a ≡ false
  pub transitive : (a b c : ℕ) → f.lt a b ≡ true → f.lt b c ≡ true → f.lt a c ≡ true
  pub nan : ℕ → Bool
  pub nan_below : (a b : ℕ) → f.lt a b ≡ true → (nan a ≡ false) × (nan b ≡ false)
  pub between :
      (a b c : ℕ) → f.lt a b ≡ true → nan c ≡ false → (f.lt a c ≡ true) ⊎ (f.lt c b ≡ true)
  pub infinities : (nan f.infinity ≡ false) × (nan f.neg_infinity ≡ false)

-- The two statistics, with the value that they start from and the order in which they go down.
pub data Extreme : AttrStat → Type 0 where
  minimum : Extreme stat_min
  maximum : Extreme stat_max

-- The readings of the object of an index, the last one first.
abbrev pub hear : Option Sample → List Sample → List Sample
hear none heard = heard
hear (some r) heard = r ∷ heard

abbrev pub heard_from : ℕ → List (ℤ × List Sample) → List Sample → List Sample
heard_from i [] heard = heard
heard_from i ((retval, readings) ∷ rounds) heard =
    heard_from i rounds
      (if int_eq retval ret_success then hear (get_elem? readings i) heard else heard)

module _ (f : Floats) where
  abbrev pub beats : {op : AttrStat} → Extreme op → ℕ → ℕ → Bool
  beats minimum a b = f.lt a b
  beats maximum a b = f.lt b a

  abbrev pub worst : {op : AttrStat} → Extreme op → ℕ
  worst minimum = f.infinity
  worst maximum = f.neg_infinity

  pub beats_irreflexive :
      IsOrder f → {op : AttrStat} → (x : Extreme op) (a : ℕ) → beats x a a ≡ false
  beats_irreflexive o minimum a = o.irreflexive a
  beats_irreflexive o maximum a = o.irreflexive a

  beats_transitive :
      IsOrder f
      → {op : AttrStat} → (x : Extreme op) (a b c : ℕ) → beats x a b ≡ true
      → beats x b c ≡ true
      → beats x a c ≡ true
  beats_transitive o minimum a b c p q = o.transitive a b c p q
  beats_transitive o maximum a b c p q = o.transitive c b a q p

  -- What does not beat a value does not beat one that beats it.
  pub beats_back :
      IsOrder f
      → {op : AttrStat} → (x : Extreme op) (a b c : ℕ) → beats x b c ≡ true
      → beats x a c ≡ false
      → beats x a b ≡ false
  beats_back o x a b c p q = elim (Bool-cases (beats x a b)) [
    | inr miss ↦ miss
    | inl hit ↦ ground (arith, beats_transitive o x a b c hit p)
  ]

  beats_number :
      (o : IsOrder f) {op : AttrStat} (x : Extreme op) (a b : ℕ)
      → beats x a b ≡ true
      → o.nan a ≡ false
  beats_number o minimum a b p = (o.nan_below a b p).0
  beats_number o maximum a b p = (o.nan_below b a p).1

  pub worst_number : (o : IsOrder f) {op : AttrStat} (x : Extreme op) → o.nan (worst x) ≡ false
  worst_number o minimum = o.infinities.0
  worst_number o maximum = o.infinities.1

  beats_between :
      (o : IsOrder f) {op : AttrStat} (x : Extreme op) (a b c : ℕ)
      → o.nan c ≡ false
      → beats x a b ≡ true
      → (beats x a c ≡ true) ⊎ (beats x c b ≡ true)
  beats_between o minimum a b c n p = o.between a b c p n
  beats_between o maximum a b c n p = elim (o.between b a c p n) [ inl q ↦ inr q | inr q ↦ inl q ]

  -- What does not beat a number does not beat what the number does not beat.
  pub beats_through :
      (o : IsOrder f) {op : AttrStat} (x : Extreme op) (a b c : ℕ)
      → o.nan c ≡ false
      → beats x a c ≡ false
      → beats x c b ≡ false
      → beats x a b ≡ false
  beats_through o x a b c n p q = elim (Bool-cases (beats x a b)) [
    | inr miss ↦ miss
    | inl hit ↦ elim (beats_between o x a b c n hit) [
      | inl r ↦ ground (arith, p, r)
      | inr r ↦ ground (arith, q, r)
    ]
  ]

  -- What a cell says of the readings of its object: none beats the value, which is one of them, with
  -- its time, or the value from which the statistic starts.
  pub record IsBest (o : IsOrder f) {op : AttrStat} (x : Extreme op) (heard : List Sample)
      (c : Cell) : Type 0 where
    pub unbeaten : All (λ (r : Sample). beats x r.0 c.value ≡ false) heard
    pub number : o.nan c.value ≡ false
    pub taken : (c.value ≡ worst x) ⊎ ((k : ℕ) × (get_elem? heard k ≡ some (c.value, c.instant)))

  All-unbeaten :
      IsOrder f
      → {op : AttrStat} → (x : Extreme op) (v w : ℕ) (heard : List Sample) → beats x v w ≡ true
      → All (λ (r : Sample). beats x r.0 w ≡ false) heard
      → All (λ (r : Sample). beats x r.0 v ≡ false) heard
  All-unbeaten o x v w [] p h = tt
  All-unbeaten o x v w (r ∷ heard) p h =
      (beats_back o x r.0 v w p h.0, All-unbeaten o x v w heard p h.1)

  keep-IsBest :
      (o : IsOrder f)
      → {op : AttrStat} → (x : Extreme op) (r : Sample) (heard : List Sample) (c : Cell) (b : Bool)
      → beats x r.0 c.value ≡ b
      → IsBest o x heard c
      → IsBest o x (r ∷ heard) (keep_if b r c)
  keep-IsBest o x r heard c true p best = record {
    unbeaten = (beats_irreflexive o x r.0, All-unbeaten o x r.0 c.value heard p best.unbeaten);
    number = beats_number o x r.0 c.value p;
    taken = inr (0, refl);
  }
  keep-IsBest o x r heard c false p best = record {
    unbeaten = (p, best.unbeaten);
    number = best.number;
    taken = elim best.taken [ inl w ↦ inl w | inr (k, e) ↦ inr (suc k, e) ];
  }

  pub calculate_cell-IsBest :
      (o : IsOrder f)
      → {op : AttrStat} → (x : Extreme op) (n : ℕ) (r : Sample) (heard : List Sample) (c : Cell)
      → IsBest o x heard c
      → IsBest o x (r ∷ heard) (calculate_cell f op n r c)
  unfolding calculate_cell
  calculate_cell-IsBest o minimum n r heard c best = keep-IsBest o minimum r heard c _ refl best
  calculate_cell-IsBest o maximum n r heard c best = keep-IsBest o maximum r heard c _ refl best
