-- ===== src/Attribute/Popped.antt =====
-- lib/attributes.c, PWR_StatusPopError: what a caller reads from a status after a call.
use cray_pwrapi.Base.{
  ℕ, zero, suc, ◌≡◌, refl, ap, ◌∙◌, List, [], ◌∷◌, Option, none, some, ℤ, pos, true, length, update,
  update_self, ◌==◌, arith,
}
use cray_pwrapi.Types.{AttrName, ret_success, ret_empty}
use cray_pwrapi.Glib.Sequence.{Sequence}
use cray_pwrapi.Glib.HashTable.{HashTable}
use cray_pwrapi.Object.Tree.{Machine}
use cray_pwrapi.Attribute.Status.{Library, AccessError, find_status_by_opaque, pwr_status_pop_error}
use cray_pwrapi.Attribute.Single.{Memory, usable_status, pwr_obj_attr_get_values}
use cray_pwrapi.Attribute.Reports.{Queues, errors_of, readings}
use cray_pwrapi.Attribute.Queue.{reported}
use cray_pwrapi.Opaque.Key.{opaque_get_data_key}
use cray_pwrapi.Opaque.Map.{opaque_status, opaque_map_lookup_type}
use cray_pwrapi.Group.Api.{World}
use cray_pwrapi.Attribute.Values.{get_values-IsReported}

-- The replies to a caller that takes every error of the list and then finds the status empty.
abbrev pub replies_of : List AccessError → List (ℤ × Option AccessError)
replies_of [] = (ret_empty, none) ∷ []
replies_of (e ∷ es) = (ret_success, some e) ∷ replies_of es

reported_self :
    (q : Queues) (stat : ℕ) (es old : List AccessError)
    → q stat ≡ some old
    → reported (some stat) es q stat ≡ some es
reported_self q stat es old h =
    let same : (stat == stat) ≡ true = ground arith in rw same (rw (h, reported) refl)

module _ (g : Sequence) (h : HashTable ℕ ℕ) {S : Type 0} (m : Machine S) where
  -- A caller that calls PWR_StatusPopError `n` times.
  abbrev pub pop_times : ℕ → Library g h m → ℕ → List (ℤ × Option AccessError)
  pop_times zero l status = []
  pop_times (suc n) l status =
      let (code, error, l1) = pwr_status_pop_error g h m l status in
      (code, error) ∷ pop_times n l1 status

  pop-errors :
      (es : List AccessError) (l : Library g h m) (status stat : ℕ)
      → find_status_by_opaque g h m l status ≡ some stat
      → l.queues stat ≡ some es
      → pop_times (suc (length es)) l status ≡ replies_of es
  unfolding pwr_status_pop_error find_status_by_opaque
  pop-errors [] l status stat found here =
      rw (found, pwr_status_pop_error) (rw (here, pwr_status_pop_error) refl)
  pop-errors (e ∷ es) l status stat found here =
      let l1 : Library g h m = record l { queues = update l.queues stat (some es) } in
      let popped : pwr_status_pop_error g h m l status ≡ (ret_success, some e, l1) =
        rw (found, pwr_status_pop_error) (rw (here) refl) in
      ap
        (λ (r : ℤ × Option AccessError × Library g h m).
          (r.0, r.1) ∷ pop_times (suc (length es)) r.2 status)
        popped
      ∙ ap (λ (rest : List (ℤ × Option AccessError)). (ret_success, some e) ∷ rest)
          (pop-errors es l1 status stat found (update_self l.queues stat (some es)))

  -- Where malloc does not fail and the status is one of the object's context: after
  -- PWR_ObjAttrGetValues, a caller who calls PWR_StatusPopError once more often than there were
  -- readings that failed gets the error of each of them, in the order of the attributes, and then
  -- PWR_RET_EMPTY.
  pub get_values_popped :
      (l : Library g h m) (object n : ℕ) (attrs : ℕ → AttrName) (values : Memory)
      (ts : Option Memory) (status stat : ℕ) (old : List AccessError)
      → ((s : S) → m.malloc s ≡ true)
      → usable_status g h m l status object ≡ true
      → find_status_by_opaque g h m l status ≡ some stat
      → l.queues stat ≡ some old
      → (let errors =
            errors_of (λ k. object) attrs 0 (readings g h m l (λ k. object) attrs n 0 l.machine) in
          pop_times
            (suc (length errors))
            (pwr_obj_attr_get_values g h m l object (pos n) (some attrs) (some values) ts status).1
            status
          ≡ replies_of errors)
  unfolding find_status_by_opaque
  get_values_popped l object n attrs values ts status stat old works usable found here =
      let (code, l', values', ts', eq, after) =
        get_values-IsReported g h m l object n attrs values ts status works usable in
      let errors =
        errors_of (λ k. object) attrs 0 (readings g h m l (λ k. object) attrs n 0 l.machine) in
      let held : l'.queues stat ≡ some errors =
        after.errors stat
        ∙ ap (λ (st : Option ℕ). reported st errors l.queues stat) found
        ∙ reported_self l.queues stat errors old here in
      let found' : find_status_by_opaque g h m l' status ≡ some stat =
        ap
          (λ (w : World g h).
            opaque_map_lookup_type h (some w.map) (opaque_get_data_key status) opaque_status)
          after.kept.0
        ∙ found in
      ap
        (λ (r : ℤ × Library g h m × Option Memory × Option Memory).
          pop_times (suc (length errors)) r.1 status)
        eq
      ∙ pop-errors errors l' status stat found' held
