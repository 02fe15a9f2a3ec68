-- ===== src/Attribute/Queue.antt =====
-- lib/attributes.c: the queue of a status after it is cleared and errors are pushed.
use cray_pwrapi.Base.{
  ℕ, ◌≡◌, refl, ap, sym, subst, ◌∙◌, List, [], ◌∷◌, ◌++◌, Option, none, some, if◌then◌else◌, update,
  update_self, ◌==◌, ==_iff, arith, Option-cases, Bool-cases, inl, inr,
}
use mathlib.Core.List.{append_assoc, append-nil}
use cray_pwrapi.Attribute.Status.{AccessError}
use cray_pwrapi.Attribute.Reports.{Queues, append_error, append_errors}

append_errors-none :
    (q : Queues) (stat : ℕ) (es : List AccessError)
    → q stat ≡ none
    → append_errors q (some stat) es ≡ q
append_errors-none q stat [] h = refl
append_errors-none q stat (e ∷ es) h =
    let kept : append_error q (some stat) e ≡ q = rw (h, append_error) refl in
    ap (λ (q' : Queues). append_errors q' (some stat) es) kept ∙ append_errors-none q stat es h

append_errors-some :
    (q : Queues) (stat a : ℕ) (es old : List AccessError)
    → q stat ≡ some old
    → append_errors q (some stat) es a ≡ (if a == stat then some (old ++ es) else q a)
append_errors-some q stat a [] old h = elim (Bool-cases (a == stat)) [
  | inl y ↦ rw y (
      subst (λ (b : ℕ). q b ≡ some (old ++ [])) (sym ((==_iff a stat).0 y))
        (h ∙ ap some (sym (append-nil old))))
  | inr n ↦ rw n refl
]
append_errors-some q stat a (e ∷ es) old h =
    let added : append_error q (some stat) e ≡ update q stat (some (old ++ e ∷ [])) =
      rw (h, append_error) refl in
    ap (λ (q' : Queues). append_errors q' (some stat) es a) added
    ∙ append_errors-some (update q stat (some (old ++ e ∷ []))) stat a es (old ++ e ∷ [])
        (ground arith)
    ∙ elim (Bool-cases (a == stat)) [
      | inl y ↦ rw y (ap some (append_assoc old (e ∷ []) es))
      | inr n ↦ rw n refl
    ]

abbrev pub cleared : Queues → Option ℕ → Queues
cleared q none = q
cleared q (some stat) = elim (q stat) [ none ↦ q | some list ↦ update q stat (some []) ]

-- The queues where that of the status holds just these errors.
abbrev pub reported : Option ℕ → List AccessError → Queues → Queues
reported none es q a = q a
reported (some stat) es q a =
    if a == stat then elim (q stat) [ none ↦ none | some old ↦ some es ] else q a

append_nowhere : (q : Queues) (es : List AccessError) → append_errors q none es ≡ q
append_nowhere q [] = refl
append_nowhere q (e ∷ es) = append_nowhere q es

pub append-cleared :
    (q : Queues) (stat : Option ℕ) (es : List AccessError) (a : ℕ)
    → append_errors (cleared q stat) stat es a ≡ reported stat es q a
append-cleared q none es a = ap (λ (q' : Queues). q' a) (append_nowhere q es)
append-cleared q (some stat) es a = elim (Option-cases (q stat)) [
  | inl y ↦
      let same : cleared q (some stat) ≡ q = rw (y, cleared) refl in
      ap (λ (q' : Queues). append_errors q' (some stat) es a) same
      ∙ ap (λ (q' : Queues). q' a) (append_errors-none q stat es y)
      ∙ elim (Bool-cases (a == stat)) [
        | inl e ↦
            rw e (rw (y, reported) (subst (λ (b : ℕ). q b ≡ none) (sym ((==_iff a stat).0 e)) y))
        | inr n ↦ rw n refl
      ]
  | inr (old, y) ↦
      let emptied : cleared q (some stat) ≡ update q stat (some []) = rw (y, cleared) refl in
      ap (λ (q' : Queues). append_errors q' (some stat) es a) emptied
      ∙ append_errors-some (update q stat (some [])) stat a es [] (update_self q stat (some []))
      ∙ elim (Bool-cases (a == stat)) [ inl e ↦ rw e (rw (y, reported) refl) | inr n ↦ rw n refl ]
]
