-- ===== src/Glib/Sequence.antt =====
-- GSequence, as lib/group.c uses it: a sequence of pointers that is read through iterators.
-- `items` lists what an iterator meets between `g_sequence_get_begin_iter` and the end, so an
-- iterator is the list of what is left, and a position is an index.
use cray_pwrapi.Base.{
  ℕ, ◌≡◌, ◌≢◌, List, [], ◌∷◌, ◌++◌, Option, none, some, length, get_elem?, remove_at, Sign, sign_of,
}

-- No element of the list comes before `x`.
abbrev pub NoneBefore : (ℕ → ℕ → Sign) → ℕ → List ℕ → Type 0
NoneBefore cmp x [] = Unit {0}
NoneBefore cmp x (y ∷ ys) = (cmp x y ≢ Sign.after) × NoneBefore cmp x ys

-- What GLib calls sorted by a comparison function.
abbrev pub SortedBy : (ℕ → ℕ → Sign) → List ℕ → Type 0
SortedBy cmp [] = Unit {0}
SortedBy cmp (x ∷ xs) = NoneBefore cmp x xs × SortedBy cmp xs

-- Nothing in the list compares equal to `x`.
abbrev pub NoneSame : (ℕ → ℕ → Sign) → ℕ → List ℕ → Type 0
NoneSame cmp x [] = Unit {0}
NoneSame cmp x (y ∷ ys) = (cmp y x ≢ Sign.same) × NoneSame cmp x ys

pub record Sequence : Type 1 where
  pub Seq : Type 0
  pub items : Seq → List ℕ
  -- g_sequence_new, g_sequence_append, g_sequence_get_length, g_sequence_remove
  pub new : Seq
  pub append : Seq → ℕ → Seq
  pub get_length : Seq → ℕ
  pub remove : Seq → ℕ → Seq
  -- g_sequence_lookup, which returns the position of an equal element, and
  -- g_sequence_insert_sorted
  pub lookup : (ℕ → ℕ → Sign) → Seq → ℕ → Option ℕ
  pub insert_sorted : (ℕ → ℕ → Sign) → Seq → ℕ → Seq
  pub items-new : items new ≡ []
  pub items-append : (s : Seq) (x : ℕ) → items (append s x) ≡ items s ++ x ∷ []
  pub get_length_lem : (s : Seq) → get_length s ≡ length (items s)
  pub items-remove : (s : Seq) (i : ℕ) → items (remove s i) ≡ remove_at (items s) i
  pub lookup-some :
      (cmp : ℕ → ℕ → Sign) (s : Seq) (x i : ℕ)
      → lookup cmp s x ≡ some i
      → (y : ℕ) × (get_elem? (items s) i ≡ some y) × (cmp y x ≡ Sign.same)
  pub lookup-none :
      (cmp : ℕ → ℕ → Sign) (s : Seq) (x : ℕ)
      → SortedBy cmp (items s)
      → lookup cmp s x ≡ none
      → NoneSame cmp x (items s)
  -- For a function that compares ranks.
  pub items-insert_sorted :
      (cmp : ℕ → ℕ → Sign) (rank : ℕ → ℕ) (s : Seq) (x : ℕ)
      → ((a b : ℕ) → cmp a b ≡ sign_of (rank a) (rank b))
      → SortedBy cmp (items s)
      → (front back : List ℕ) × (items s ≡ front ++ back)
        × (items (insert_sorted cmp s x) ≡ front ++ x ∷ back)
        × SortedBy cmp (items (insert_sorted cmp s x))
