-- ===== src/Statistic/Rounds.antt =====
-- lib/statistics.c: what the cells of a statistic of the minimum or the maximum say of the readings
-- after any rounds of its thread.
use cray_pwrapi.Base.{
  ℕ, zero, suc, ◌≡◌, refl, ap, ◌∙◌, List, [], ◌∷◌, Bool, true, false, Option, none, some, map, ℤ,
  int_eq, if◌then◌else◌, get_elem?, inl, length,
}
use cray_pwrapi.Types.{AttrStat, ret_success}
use cray_pwrapi.Statistic.Calculate.{
  Floats, Cell, Sample, Statistic, Thread, running, initial_cell, initial_cells, initialize,
  calculate_cells, calculate_round,
}
use cray_pwrapi.Statistic.Extremes.{
  IsOrder, Extreme, minimum, maximum, worst, worst_number, hear, heard_from, IsBest,
  calculate_cell-IsBest,
}

module _ (f : Floats) where
  -- The thread makes the rounds.
  unfoldable pub run : List (ℤ × List Sample) → Statistic → Statistic
  unfolding calculate_round
  run [] st = st
  run ((retval, readings) ∷ rounds) st = run rounds (calculate_round f retval readings st)

  abbrev pub Kept : IsOrder f → {op : AttrStat} → Extreme op → List Sample → Option Cell → Type 0
  Kept o x heard none = Unit
  Kept o x heard (some c) = IsBest f o x heard c

  -- The round of one index.
  calculate_cells-Kept :
      (o : IsOrder f)
      → {op : AttrStat} → (x : Extreme op) (n i : ℕ) (readings heard : List Sample) (cs : List Cell)
      → Kept o x heard (get_elem? cs i)
      → Kept o x
          (hear (get_elem? readings i) heard)
          (get_elem? (calculate_cells f op n readings cs) i)
  unfolding calculate_cells
  calculate_cells-Kept o x n i [] heard cs k = k
  calculate_cells-Kept o x n i (r ∷ rs) heard [] k = tt
  calculate_cells-Kept o x n zero (r ∷ rs) heard (c ∷ cs) k =
      calculate_cell-IsBest f o x n r heard c k
  calculate_cells-Kept o x n (suc i) (r ∷ rs) heard (c ∷ cs) k =
      calculate_cells-Kept o x n i rs heard cs k

  calculate_round-Kept :
      (o : IsOrder f)
      → (st : Statistic) (x : Extreme st.stat) (n i : ℕ) (b : Bool) (readings heard : List Sample)
      → Kept o x heard (get_elem? st.cells i)
      → Kept o x (if b then hear (get_elem? readings i) heard else heard) (
          get_elem?
            (if b then calculate_cells f st.stat (f.add n f.one) readings st.cells else st.cells)
            i)
  calculate_round-Kept o st x n i true readings heard k =
      calculate_cells-Kept o x (f.add n f.one) i readings heard st.cells k
  calculate_round-Kept o st x n i false readings heard k = k

  abbrev pub counted : Bool → ℕ → ℕ
  counted false n = n
  counted true n = f.add n f.one

  pub round_lem :
      (st : Statistic) (n : ℕ) (retval : ℤ) (readings : List Sample) (b : Bool)
      → int_eq retval ret_success ≡ b
      → calculate_round f retval readings (record st { life = some (running n) }) ≡ record st {
        cells = if b then calculate_cells f st.stat (f.add n f.one) readings st.cells else st.cells;
        life = some (running (counted b n));
      }
  unfolding calculate_round
  round_lem st n retval readings true p = rw p refl
  round_lem st n retval readings false p = rw p refl

  calculate_cells_size :
      (op : AttrStat) (n : ℕ) (readings : List Sample) (cs : List Cell)
      → length (calculate_cells f op n readings cs) ≡ length cs
  unfolding calculate_cells
  calculate_cells_size op n [] cs = refl
  calculate_cells_size op n (r ∷ rs) [] = refl
  calculate_cells_size op n (r ∷ rs) (c ∷ cs) = ap suc (calculate_cells_size op n rs cs)

  pub round_size :
      (st : Statistic) (n : ℕ) (b : Bool) (readings : List Sample)
      → length (if b then calculate_cells f st.stat (f.add n f.one) readings st.cells else st.cells)
        ≡ length st.cells
  round_size st n true readings = calculate_cells_size st.stat (f.add n f.one) readings st.cells
  round_size st n false readings = refl

  pub length-map_cells :
      {op : AttrStat} (x : Extreme op) (cs : List Cell)
      → length (map (λ (c : Cell). record c { value = worst f x }) cs) ≡ length cs
  length-map_cells x [] = refl
  length-map_cells x (c ∷ cs) = ap suc (length-map_cells x cs)

  -- What the rounds keep: the references, the type and the times, and what each cell says of its
  -- readings.
  pub record Follows (o : IsOrder f) (st : Statistic) (x : Extreme st.stat) (i : ℕ)
      (heard : List Sample) (st' : Statistic) : Type 0 where
    pub cells : List Cell
    pub life : Option Thread
    pub same : st' ≡ record st { cells = cells; life = life }
    pub size : length cells ≡ length st.cells
    pub kept : Kept o x heard (get_elem? cells i)

  pub run-Follows :
      (o : IsOrder f)
      → (st : Statistic) (x : Extreme st.stat) (n i : ℕ) (rounds : List (ℤ × List Sample))
        (heard : List Sample)
      → Kept o x heard (get_elem? st.cells i)
      → Follows o st x i
          (heard_from i rounds heard)
          (run rounds (record st { life = some (running n) }))
  unfolding run
  run-Follows o st x n i [] heard k = record {
    cells = st.cells;
    life = some (running n);
    same = refl;
    size = refl;
    kept = k;
  }
  run-Follows o st x n i ((retval, readings) ∷ rounds) heard k =
      let b = int_eq retval ret_success in
      let cells' =
        if b then calculate_cells f st.stat (f.add n f.one) readings st.cells else st.cells in
      let rest =
        run-Follows o (record st { cells = cells' }) x (counted b n) i rounds
          (if b then hear (get_elem? readings i) heard else heard)
          (calculate_round-Kept o st x n i b readings heard k) in
      record {
        cells = rest.cells;
        life = rest.life;
        same = ap (run rounds) (round_lem st n retval readings b refl) ∙ rest.same;
        size = rest.size ∙ round_size st n b readings;
        kept = rest.kept;
      }

  -- The cells from which the rounds start.
  initial_cells-Extreme :
      {op : AttrStat} (x : Extreme op) (cs : List Cell)
      → initial_cells f op cs ≡ some (map (λ (c : Cell). record c { value = worst f x }) cs)
  unfolding initial_cells initial_cell
  initial_cells-Extreme minimum [] = refl
  initial_cells-Extreme maximum [] = refl
  initial_cells-Extreme minimum (c ∷ cs) = rw (initial_cells-Extreme minimum cs) refl
  initial_cells-Extreme maximum (c ∷ cs) = rw (initial_cells-Extreme maximum cs) refl

  initial-Kept :
      (o : IsOrder f) {op : AttrStat} (x : Extreme op) (cs : List Cell) (i : ℕ)
      → Kept o x [] (get_elem? (map (λ (c : Cell). record c { value = worst f x }) cs) i)
  initial-Kept o x [] i = tt
  initial-Kept o x (c ∷ cs) zero = record {
    unbeaten = tt;
    number = worst_number f o x;
    taken = inl refl;
  }
  initial-Kept o x (c ∷ cs) (suc i) = initial-Kept o x cs i

  pub initialize_lem :
      (st : Statistic) (x : Extreme st.stat)
      → initialize f st ≡ record st {
        cells = map (λ (c : Cell). record c { value = worst f x }) st.cells;
        life = some (running 0);
      }
  unfolding initialize
  initialize_lem st x = rw (initial_cells-Extreme x st.cells, initialize) refl

  -- A thread from its start on.
  pub thread-Follows :
      (o : IsOrder f)
      → (st : Statistic) (x : Extreme st.stat) (i : ℕ) (rounds : List (ℤ × List Sample))
      → Follows o st x i (heard_from i rounds []) (run rounds (initialize f st))
  thread-Follows o st x i rounds =
      let cells' = map (λ (c : Cell). record c { value = worst f x }) st.cells in
      let r =
        run-Follows o (record st { cells = cells' }) x 0 i rounds []
          (initial-Kept o x st.cells i) in
      record {
        cells = r.cells;
        life = r.life;
        same = ap (run rounds) (initialize_lem st x) ∙ r.same;
        size = r.size ∙ length-map_cells x st.cells;
        kept = r.kept;
      }
