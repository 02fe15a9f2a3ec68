-- ===== src/Group/Sorted.antt =====
-- Strictly ascending lists of addresses as finite sets.
use cray_pwrapi.Base.{ℕ, ◌≤◌, ◌<◌, ◌≡◌, refl, ap₂, List, [], ◌∷◌, true, false, arith, contains}

-- Every element lies above `a`.
abbrev pub Above : ℕ → List ℕ → Type 0
Above a [] = Unit {0}
Above a (x ∷ xs) = (a < x) × Above a xs

abbrev pub Ascending : List ℕ → Type 0
Ascending [] = Unit {0}
Ascending (x ∷ xs) = Above x xs × Ascending xs

pub Above-mono : {a b : ℕ} (xs : List ℕ) → a < b → Above b xs → Above a xs
Above-mono [] h k = tt
Above-mono (x ∷ xs) h k = (omega arith, Above-mono xs h k.1)

pub contains-Above : (a x : ℕ) (xs : List ℕ) → Above a xs → x ≤ a → contains xs x ≡ false
contains-Above a x [] h k = refl
contains-Above a x (y ∷ ys) h k = ground (arith, contains-Above a x ys h.1 k)

-- A list whose members lie above `a` does so.
pub Above-of_contains :
    (a : ℕ) (xs : List ℕ) → ((x : ℕ) → contains xs x ≡ true → a < x) → Above a xs
Above-of_contains a [] h = tt
Above-of_contains a (x ∷ xs) h =
    (h x (ground arith), Above-of_contains a xs (λ y k. h y (ground arith)))

pub lt_of_contains : {a : ℕ} (x : ℕ) (xs : List ℕ) → Above a xs → contains xs x ≡ true → a < x
lt_of_contains x [] h k = cc
lt_of_contains x (y ∷ ys) h k = ground (arith, lt_of_contains x ys h.1)

-- The heads of two ascending lists with the same members are equal, and so are the members of
-- the tails.
head_eq :
    (x y : ℕ) (xs ys : List ℕ)
    → Above x xs
    → Above y ys
    → contains (x ∷ xs) x ≡ contains (y ∷ ys) x
    → contains (x ∷ xs) y ≡ contains (y ∷ ys) y
    → x ≡ y
head_eq x y xs ys p q h k = ground (arith, contains-Above y x ys q, contains-Above x y xs p)

tail_eq :
    (x : ℕ) (xs ys : List ℕ) (a : ℕ)
    → Above x xs
    → Above x ys
    → contains (x ∷ xs) a ≡ contains (x ∷ ys) a
    → contains xs a ≡ contains ys a
tail_eq x xs ys a p q h = ground (arith, contains-Above x a xs p, contains-Above x a ys q)

-- Two ascending lists with the same members are equal.
pub Ascending-ext :
    (xs ys : List ℕ)
    → Ascending xs
    → Ascending ys
    → ((a : ℕ) → contains xs a ≡ contains ys a)
    → xs ≡ ys
Ascending-ext [] [] p q h = refl
Ascending-ext [] (y ∷ ys) p q h = ground (arith, h y)
Ascending-ext (x ∷ xs) [] p q h = ground (arith, h x)
Ascending-ext (x ∷ xs) (y ∷ ys) p q h =
    let e : x ≡ y = head_eq x y xs ys p.0 q.0 (h x) (h y) in
    ap₂ ◌∷◌ e
      (Ascending-ext xs ys p.1 q.1 (λ a. tail_eq x xs ys a p.0 (rw e q.0) (rw e (rw e at (h a)))))
