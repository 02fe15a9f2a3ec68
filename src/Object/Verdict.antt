-- ===== src/Object/Verdict.antt =====
-- lib/object.c, forward_attr_set_value: how the codes of several calls are made one.
use cray_pwrapi.Base.{
  ℕ, zero, suc, Bool, true, false, List, [], ◌∷◌, ◌++◌, ℤ, pos, negsuc, int_eq, if◌then◌else◌, ◌≡◌,
  refl, All, arith, ◌==◌, ap, ap₂, sym, ◌∙◌, inl, inr, Bool-cases,
}
use cray_pwrapi.Types.{ret_not_implemented}
use cray_pwrapi.Object.Values.{note_status}
use cray_pwrapi.Object.Flat.{IsNoWarning, errors_in, any_implemented, agree, verdict}

-- Two codes made one, where `ret_not_implemented` says that there is none.
unfoldable pub join : ℤ → ℤ → ℤ
join a b =
    if int_eq a ret_not_implemented
    then b
    else if int_eq b ret_not_implemented
    then a
    else note_status a b

pub join_assoc :
    (a b c : ℤ)
    → IsNoWarning a
    → IsNoWarning b
    → IsNoWarning c
    → join (join a b) c ≡ join a (join b c)
unfolding join note_status
join_assoc (pos zero) (pos zero) (pos zero) p q r = ground arith
join_assoc (pos zero) (pos zero) (negsuc c) p q r = ground arith
join_assoc (pos zero) (negsuc b) (pos zero) p q r = ground arith
join_assoc (pos zero) (negsuc b) (negsuc c) p q r = ground arith
join_assoc (negsuc a) (pos zero) (pos zero) p q r = ground arith
join_assoc (negsuc a) (pos zero) (negsuc c) p q r = ground arith
join_assoc (negsuc a) (negsuc b) (pos zero) p q r = ground arith
join_assoc (negsuc a) (negsuc b) (negsuc c) p q r = ground arith
join_assoc (pos (suc a)) b c p q r = elim p [ ]
join_assoc a (pos (suc b)) c p q r = elim q [ ]
join_assoc a b (pos (suc c)) p q r = elim r [ ]

pub join-IsNoWarning : (a b : ℤ) → IsNoWarning a → IsNoWarning b → IsNoWarning (join a b)
unfolding join note_status
join-IsNoWarning (pos zero) (pos zero) p q = ground arith
join-IsNoWarning (pos zero) (negsuc b) p q = ground arith
join-IsNoWarning (negsuc a) (pos zero) p q = ground arith
join-IsNoWarning (negsuc a) (negsuc b) p q = ground arith
join-IsNoWarning (pos (suc a)) b p q = elim p [ ]
join-IsNoWarning a (pos (suc b)) p q = elim q [ ]

pub join-nothing : (a : ℤ) → join a ret_not_implemented ≡ a
unfolding join
join-nothing (pos n) = refl
join-nothing (negsuc n) = ground arith

unfoldable pub total : List ℤ → ℤ
total [] = ret_not_implemented
total (code ∷ codes) = join code (total codes)

pub total-IsNoWarning : (codes : List ℤ) → All IsNoWarning codes → IsNoWarning (total codes)
unfolding total
total-IsNoWarning [] h = tt
total-IsNoWarning (c ∷ cs) h = join-IsNoWarning c (total cs) h.0 (total-IsNoWarning cs h.1)

pub All-append :
    (xs ys : List ℤ) → All IsNoWarning (xs ++ ys) → All IsNoWarning xs × All IsNoWarning ys
All-append [] ys h = (tt, h)
All-append (x ∷ xs) ys h = let (a, b) = All-append xs ys h.1 in ((h.0, a), b)

pub total-append :
    (xs ys : List ℤ) → All IsNoWarning (xs ++ ys) → total (xs ++ ys) ≡ join (total xs) (total ys)
unfolding total join
total-append [] ys h = refl
total-append (x ∷ xs) ys h =
    let (p, q) = All-append xs ys h.1 in
    ap (join x) (total-append xs ys h.1)
    ∙ sym (join_assoc x (total xs) (total ys) h.0 (total-IsNoWarning xs p) (total-IsNoWarning ys q))

-- An error other than that the attribute is not implemented.
IsError : ℤ → Type 0
IsError (pos n) = ⊥
IsError (negsuc n) = (n == 1) ≡ false

errors_in-IsError : (codes : List ℤ) → All IsError (errors_in codes)
unfolding IsError
errors_in-IsError [] = tt
errors_in-IsError (pos n ∷ codes) = errors_in-IsError codes
errors_in-IsError (negsuc n ∷ codes) = elim (Bool-cases (n == 1)) [
  | inl y ↦ rw y (errors_in-IsError codes)
  | inr f ↦ rw f (f, errors_in-IsError codes)
]

agree-success :
    (b : Bool) (es : List ℤ) → All IsError es → agree true es ≡ join (pos 0) (agree b es)
unfolding join note_status IsError
agree-success true [] h = refl
agree-success false [] h = refl
agree-success b (pos n ∷ es) h = elim h.0 [ ]
agree-success b (negsuc n ∷ es) h = ground (arith, h.0)

agree-error :
    (n : ℕ) (b : Bool) (es : List ℤ)
    → (n == 1) ≡ false
    → All IsError es
    → agree true (negsuc n ∷ es) ≡ join (negsuc n) (agree b es)
unfolding join note_status IsError
agree-error n true [] k h = ground arith
agree-error n false [] k h = ground arith
agree-error n b (pos e ∷ es) k h = elim h.0 [ ]
agree-error n b (negsuc e ∷ es) k h = ground (arith, h.0)

verdict-error :
    (n : ℕ) (codes : List ℤ)
    → (n == 1) ≡ false
    → verdict codes ≡ total codes
    → verdict (negsuc n ∷ codes) ≡ total (negsuc n ∷ codes)
unfolding total
verdict-error n codes f e =
    let some_error : errors_in (negsuc n ∷ codes) ≡ negsuc n ∷ errors_in codes = rw f refl in
    let implemented : any_implemented (negsuc n ∷ codes) ≡ true = rw f refl in
    ap₂ agree implemented some_error
    ∙ agree-error n (any_implemented codes) (errors_in codes) f (errors_in-IsError codes)
    ∙ ap (join (negsuc n)) e

pub verdict-total : (codes : List ℤ) → All IsNoWarning codes → verdict codes ≡ total codes
unfolding total join
verdict-total [] h = refl
verdict-total (pos zero ∷ codes) h =
    agree-success (any_implemented codes) (errors_in codes) (errors_in-IsError codes)
    ∙ ap (join (pos 0)) (verdict-total codes h.1)
verdict-total (pos (suc n) ∷ codes) h = elim h.0 [ ]
verdict-total (negsuc n ∷ codes) h = elim (Bool-cases (n == 1)) [
  | inl y ↦ ground (arith, y, verdict-total codes h.1)
  | inr f ↦ verdict-error n codes f (verdict-total codes h.1)
]
