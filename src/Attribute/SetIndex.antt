-- ===== src/Attribute/SetIndex.antt =====
-- lib/attributes.c, PWR_ObjAttrSetValues: the errors that it pushes.
use cray_pwrapi.Base.{
  ℕ, zero, suc, ◌+◌, ◌≡◌, refl, sym, ap, subst, ◌∙◌, List, [], ◌∷◌, ◌++◌, Bool, true, false, ◌&&◌,
  Option, some, ℤ, pos, int_eq, if◌then◌else◌, update, update_self,
}
use mathlib.Core.List.{append-nil, append_assoc}
use cray_pwrapi.Types.{AttrName, ret_success, ret_failure}
use cray_pwrapi.Glib.Sequence.{Sequence}
use cray_pwrapi.Glib.HashTable.{HashTable}
use cray_pwrapi.Object.Tree.{Machine}
use cray_pwrapi.Attribute.Status.{
  Library, AccessError, find_status_by_opaque, push_status_error, clear_status,
}
use cray_pwrapi.Attribute.Single.{
  note_error, set_round, set_loop, usable_status, pwr_obj_attr_set_values, pwr_obj_attr_set_value,
}

-- The errors of the codes of the attributes from the one at `i` on, all with the index 0.
abbrev pub errors_at_zero : ℕ → (ℕ → AttrName) → ℕ → List ℤ → List AccessError
errors_at_zero object attrs i [] = []
errors_at_zero object attrs i (code ∷ codes) =
    if int_eq code ret_success
    then errors_at_zero object attrs (i + 1) codes
    else record { obj = some object; name = attrs i; index = 0; error = code }
      ∷ errors_at_zero object attrs (i + 1) codes

abbrev pub all_set : List ℤ → Bool
all_set [] = true
all_set (code ∷ codes) = int_eq code ret_success && all_set codes

module _ (g : Sequence) (h : HashTable ℕ ℕ) {S : Type 0} (m : Machine S) where
  -- The codes of setting `n` attributes one after the other, the first one at `i`.
  abbrev pub set_codes : Library g h m → ℕ → (ℕ → AttrName) → (ℕ → ℕ) → ℕ → ℕ → S → List ℤ
  set_codes l object attrs values zero i s = []
  set_codes l object attrs values (suc n) i s =
      let (code, s1) =
        pwr_obj_attr_set_value g h m (record l { machine = s }) object (attrs i) (values i) in
      code ∷ set_codes l object attrs values n (i + 1) s1

  -- The code, and the errors in the queue of a status.
  pub record Leaves (stat : ℕ) (retval : ℤ) (es : List AccessError) (s : ℤ × Library g h m)
      : Type 0 where
    pub code : s.0 ≡ retval
    pub queue : s.1.queues stat ≡ some es

  same_if : (b : Bool) (x : ℤ) → (if b then x else x) ≡ x
  same_if true x = refl
  same_if false x = refl

  push_lem :
      (l : Library g h m) (stat : ℕ) (es : List AccessError) (e : AccessError)
      → ((s : S) → m.malloc s ≡ true)
      → l.queues stat ≡ some es
      → (push_status_error g h m l (some stat) e).1
        ≡ record l { queues = update l.queues stat (some (es ++ e ∷ [])) }
  unfolding push_status_error
  push_lem l stat es e works here = rw (here, push_status_error) (rw (works l.machine) refl)

  note_success :
      (l : Library g h m) (stat obj : ℕ) (attr : AttrName) (code retval : ℤ)
      → int_eq code ret_success ≡ true
      → note_error g h m l (some stat) (some obj) attr 0 code retval ≡ (retval, l)
  unfolding note_error
  note_success l stat obj attr code retval y = rw y refl

  note_failure :
      (l : Library g h m) (stat obj : ℕ) (attr : AttrName) (code retval : ℤ) (es : List AccessError)
      → ((s : S) → m.malloc s ≡ true)
      → l.queues stat ≡ some es
      → int_eq code ret_success ≡ false
      → note_error g h m l (some stat) (some obj) attr 0 code retval ≡ (
        ret_failure,
        record l {
          queues =
              update l.queues stat
                (some (es ++ record { obj = some obj; name = attr; index = 0; error = code } ∷ []));
        },
      )
  unfolding note_error
  note_failure l stat obj attr code retval es works here n = rw n (
      ap (λ (k : Library g h m). (ret_failure, k))
        (push_lem l stat es (record { obj = some obj; name = attr; index = 0; error = code }) works
          here))

  -- A round whose attribute can be set or not, with the rounds after it.
  after_round :
      (l : Library g h m) (works : (s : S) → m.malloc s ≡ true) (stat object : ℕ) (attr : AttrName)
      (code retval : ℤ) (es errs : List AccessError) (ok : Bool) (here : l.queues stat ≡ some es)
      (rest : ℤ × Library g h m → ℤ × Library g h m) (b : Bool)
      → int_eq code ret_success ≡ b
      → let e : AccessError = record { obj = some object; name = attr; index = 0; error = code } in
        Leaves stat (if ok then retval else ret_failure) (es ++ errs) (rest (retval, l))
        → Leaves stat
            (if ok then ret_failure else ret_failure)
            ((es ++ e ∷ []) ++ errs)
            (rest (ret_failure, record l { queues = update l.queues stat (some (es ++ e ∷ [])) }))
        → Leaves stat
            (if b && ok then retval else ret_failure)
            (es ++ (if b then errs else e ∷ errs))
            (rest (note_error g h m l (some stat) (some object) attr 0 code retval))
  after_round l works stat object attr code retval es errs ok here rest true y set unset =
      subst (λ w. Leaves stat (if ok then retval else ret_failure) (es ++ errs) (rest w))
        (sym (note_success l stat object attr code retval y)) set
  after_round l works stat object attr code retval es errs ok here rest false f set unset =
      let e : AccessError = record { obj = some object; name = attr; index = 0; error = code } in
      subst (λ w. Leaves stat ret_failure (es ++ e ∷ errs) (rest w))
        (sym (note_failure l stat object attr code retval es works here f))
        (record {
          code = unset.code ∙ same_if ok ret_failure;
          queue = unset.queue ∙ ap some (append_assoc es (e ∷ []) errs);
        })

  set_loop-Leaves :
      (l : Library g h m) (works : (s : S) → m.malloc s ≡ true) (stat object : ℕ)
      (attrs : ℕ → AttrName) (values : ℕ → ℕ) (n i : ℕ) (s : S) (q : ℕ → Option (List AccessError))
      (retval : ℤ) (es : List AccessError)
      → q stat ≡ some es
      → Leaves stat
          (if all_set (set_codes l object attrs values n i s) then retval else ret_failure)
          (es ++ errors_at_zero object attrs i (set_codes l object attrs values n i s))
          (set_loop g h m n i
            (retval, record l { machine = s; queues = q })
            (some stat)
            object
            attrs
            values)
  unfolding set_loop set_round pwr_obj_attr_set_value
  set_loop-Leaves l works stat object attrs values zero i s q retval es here = record {
    code = refl;
    queue = here ∙ ap some (sym (append-nil es));
  }
  set_loop-Leaves l works stat object attrs values (suc n) i s q retval es here =
      let (code, s1) =
        pwr_obj_attr_set_value g h m (record l { machine = s }) object (attrs i) (values i) in
      let e : AccessError = record { obj = some object; name = attrs i; index = 0; error = code } in
      let q1 = update q stat (some (es ++ e ∷ [])) in
      after_round (record l { machine = s1; queues = q }) works stat object (attrs i) code retval es
        (errors_at_zero object attrs (i + 1) (set_codes l object attrs values n (i + 1) s1))
        (all_set (set_codes l object attrs values n (i + 1) s1)) here
        (λ w. set_loop g h m n (i + 1) w (some stat) object attrs values) (int_eq code ret_success)
        refl (set_loop-Leaves l works stat object attrs values n (i + 1) s1 q retval es here)
        (set_loop-Leaves l works stat object attrs values n (i + 1) s1 q1 ret_failure (es ++ e ∷ [])
          (update_self q stat (some (es ++ e ∷ []))))

  -- Where the status is usable and memory can be allocated: PWR_ObjAttrSetValues sets every attribute
  -- in turn, one that fails included, and returns success if all of them could be set and failure
  -- else. The status then has exactly the errors of those that could not be set, in their order, each
  -- with its object, its attribute and its code, and each with the index 0.
  pub set_values-Leaves :
      (l : Library g h m) (object n : ℕ) (attrs : ℕ → AttrName) (values : ℕ → ℕ) (status stat : ℕ)
      (old : List AccessError)
      → ((s : S) → m.malloc s ≡ true)
      → usable_status g h m l status object ≡ true
      → find_status_by_opaque g h m l status ≡ some stat
      → l.queues stat ≡ some old
      → Leaves stat
          (if all_set (set_codes l object attrs values n 0 l.machine)
            then ret_success
            else ret_failure)
          (errors_at_zero object attrs 0 (set_codes l object attrs values n 0 l.machine))
          (pwr_obj_attr_set_values g h m l object (pos n) (some attrs) (some values) status)
  unfolding pwr_obj_attr_set_values clear_status
  set_values-Leaves l object n attrs values status stat old works usable found here = rw usable (
      rw found (
        rw (here, clear_status)
          (set_loop-Leaves l works stat object attrs values n 0 l.machine
            (update l.queues stat (some [])) ret_success [] (update_self l.queues stat (some [])))))
