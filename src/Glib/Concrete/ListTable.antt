-- ===== src/Glib/Concrete/ListTable.antt =====
-- A finite map as an association list without repeated keys.
use cray_pwrapi.Base.{◌≡◌, ◌≢◌, refl, sym, List, [], ◌∷◌, Option, none, some, ◌∙◌}
use mathlib.Core.Logic.{ite, if_pos, if_neg}
use cray_pwrapi.Glib.HashTable.{HashTable}

module _ {K V : Type 0} (d : Discrete K) where
  abbrev pub find : List (K × V) → K → Option V
  find [] k = none
  find ((j, v) ∷ t) k = ite (d j k) (some v) (find t k)

  abbrev pub without : List (K × V) → K → List (K × V)
  without [] k = []
  without ((j, v) ∷ t) k = ite (d j k) (without t k) ((j, v) ∷ without t k)

  pub find-without_self : (t : List (K × V)) (k : K) → find (without t k) k ≡ none
  find-without_self [] k = refl
  find-without_self ((j, v) ∷ t) k = elim (d j k) [
    | yes p ↦ rw (if_pos (d j k) p) (find-without_self t k)
    | no p ↦ rw (if_neg (d j k) p) (rw (if_neg (d j k) p) (find-without_self t k))
  ]

  pub find-without_ne : (t : List (K × V)) (k j : K) → j ≢ k → find (without t k) j ≡ find t j
  find-without_ne [] k j ne = refl
  find-without_ne ((i, v) ∷ t) k j ne = elim (d i k) [
    | yes p ↦
        rw (if_pos (d i k) p) (rw (if_neg (d i j) (λ q. ne (sym q ∙ p))) (find-without_ne t k j ne))
    | no p ↦ rw (if_neg (d i k) p) (elim (d i j) [
      | yes q ↦
          if_pos (d i j) q (some v) (find (without t k) j)
          ∙ sym (if_pos (d i j) q (some v) (find t j))
      | no q ↦
          if_neg (d i j) q (some v) (find (without t k) j)
          ∙ find-without_ne t k j ne
          ∙ sym (if_neg (d i j) q (some v) (find t j))
    ])
  ]

  pub find-cons_self : (t : List (K × V)) (k : K) (v : V) → find ((k, v) ∷ t) k ≡ some v
  find-cons_self t k v = rw (if_pos (d k k) refl) refl

  pub find-insert_ne :
      (t : List (K × V)) (k j : K) (v : V) → j ≢ k → find ((k, v) ∷ without t k) j ≡ find t j
  find-insert_ne t k j v ne = rw (if_neg (d k j) (λ q. ne (sym q))) (find-without_ne t k j ne)

  abbrev pub list_table : HashTable K V
  list_table = record {
    Table = List (K × V);
    empty = [];
    lookup = find;
    insert = λ t k v. (k, v) ∷ without t k;
    remove = without;
    entries = λ t. t;
    lookup-empty = λ k. refl;
    lookup-insert_self = λ t k v. find-cons_self (without t k) k v;
    lookup-insert_ne = find-insert_ne;
    lookup-remove_self = find-without_self;
    lookup-remove_ne = find-without_ne;
    entries-empty = refl;
  }
