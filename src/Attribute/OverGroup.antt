-- ===== src/Attribute/OverGroup.antt =====
-- lib/attributes.c, PWR_GrpAttrGetValue: the theorem on a whole call.
use cray_pwrapi.Base.{
  ℕ, zero, suc, ◌+◌, ◌<◌, ◌≡◌, refl, ap, sym, ◌∙◌, List, [], ◌∷◌, Option, none, some, ℤ, pos,
  negsuc, true, get_elem?, length, if◌then◌else◌, arith, Outcome, ret, ◌>>=◌,
}
use cray_pwrapi.Types.{AttrName, ret_success, ret_failure, ret_invalid}
use cray_pwrapi.Glib.Sequence.{Sequence}
use cray_pwrapi.Glib.HashTable.{HashTable}
use cray_pwrapi.Opaque.Key.{opaque_generate, opaque_get_context_key}
use cray_pwrapi.Group.Ops.{Group}
use cray_pwrapi.Group.Api.{World}
use cray_pwrapi.Group.Calls.{pwr_grp_get_num_objs, pwr_grp_get_obj_by_indx}
use cray_pwrapi.Group.References.{IsKnown, group_at-some, find_group-IsKnown}
use cray_pwrapi.Group.Created.{num_objs-IsKnown}
use cray_pwrapi.Object.Tree.{Machine}
use cray_pwrapi.Attribute.Status.{Library, find_status_by_opaque}
use cray_pwrapi.Attribute.Single.{
  Memory, Getting, get_round, get_start, usable_status, store_at, time_one,
}
use cray_pwrapi.Attribute.Group.{
  Answer, answer, grp_get_round, grp_get_loop, pwr_grp_attr_get_value,
}
use cray_pwrapi.Attribute.Reports.{
  Queues, readings, getting, sweep, succeeds, queues_after, reading_at, keep_reading_lem,
}
use cray_pwrapi.Attribute.Queue.{cleared}
use cray_pwrapi.Attribute.Values.{IsReported, swept, swept-IsReported, starts_cleared, sweep-swept}

get_elem?-lt : (xs : List ℕ) (k : ℕ) → k < length xs → (x : ℕ) × (get_elem? xs k ≡ some x)
get_elem?-lt [] k h = absurd (omega arith)
get_elem?-lt (x ∷ xs) zero h = (x, refl)
get_elem?-lt (x ∷ xs) (suc k) h = get_elem?-lt xs k (omega arith)

module _ (g : Sequence) (h : HashTable ℕ ℕ) where
  open g use {items, get_length_lem}

  -- The reference of the object at an index of a group.
  abbrev pub reference_at : World g h → ℕ → List ℕ → ℕ → ℕ
  reference_at w group objs k = elim (get_elem? objs k) [
    | none ↦ 0
    | some obj ↦ opaque_generate (opaque_get_context_key group) (w.map.refs obj).key
  ]

  obj_by_indx-reference_at :
      (w : World g h) (r a k : ℕ) (group : Group g)
      → IsKnown g h w r a group
      → k < length (items group.list)
      → pwr_grp_get_obj_by_indx g h w r (pos k)
        ≡ ret (ret_success, some (reference_at w r (items group.list) k))
  unfolding pwr_grp_get_obj_by_indx
  obj_by_indx-reference_at w r a k group known lt =
      let (obj, e) = get_elem?-lt (items group.list) k lt in
      rw (find_group-IsKnown g h w r a group known, pwr_grp_get_obj_by_indx)
        (rw (group_at-some g h w a group known.here, ◌>>=◌) (rw (e, reference_at) refl))

  module _ {S : Type 0} (m : Machine S) (works : (s : S) → m.malloc s ≡ true) (l : Library g h m)
      (stat : Option ℕ) (group : ℕ) (attr : AttrName) (object : ℕ → ℕ) where
    loop-sweep :
        (n i : ℕ) (s : S) (q : Queues) (values : Memory) (ts : Option Memory) (retval : ℤ)
        → ((k : ℕ)
            → k < i + n
            → pwr_grp_get_obj_by_indx g h l.world group (pos k)
              ≡ ret (ret_success, some (object k)))
        → grp_get_loop g h m n i (getting g h m l s q values ts retval) stat group attr
          ≡ ret (sweep g h m n i (getting g h m l s q values ts retval) stat object (λ k. attr))
    unfolding grp_get_loop grp_get_round get_round
    loop-sweep zero i s q values ts retval found = refl
    loop-sweep (suc n) i s q values ts retval found =
        let r = reading_at g h m l (object i) attr s in
        let kept : get_round g h m (getting g h m l s q values ts retval) stat (object i) attr i
            ≡ getting g h m l r.machine (queues_after g h m q stat (some (object i)) attr i r)
                (store_at values i r.value) (time_one g h m ts i r)
                (if succeeds r then retval else ret_failure) =
          keep_reading_lem g h m l works stat (some (object i)) attr i s q values ts retval r in
        ap
          (λ (x : Outcome (ℤ × Option ℕ)). x >>= (λ (y : ℤ × Option ℕ).
            grp_get_round g h m (getting g h m l s q values ts retval) stat attr i y.0 y.1
            >>= (λ (s1 : Getting g h m). grp_get_loop g h m n (i + 1) s1 stat group attr)))
          (found i (omega arith))
        ∙ ap (λ (s1 : Getting g h m). grp_get_loop g h m n (i + 1) s1 stat group attr) kept
        ∙ loop-sweep n (i + 1) r.machine (queues_after g h m q stat (some (object i)) attr i r)
            (store_at values i r.value) (time_one g h m ts i r)
            (if succeeds r then retval else ret_failure) (λ k lt. found k (omega arith))
        ∙ ap (λ (s1 : Getting g h m). ret (sweep g h m n (i + 1) s1 stat object (λ k. attr)))
            (sym kept)

  -- For a known group, where malloc does not fail and the status is NULL or of the group's context,
  -- PWR_GrpAttrGetValue does for the objects of the group, in their order, what PWR_ObjAttrGetValues
  -- does for the attributes of one object: it returns, and each object's value, time and error has
  -- the index of the object in the group.
  pub grp_get_value-IsReported :
      {S : Type 0} (m : Machine S) (l : Library g h m) (r a : ℕ) (group : Group g) (attr : AttrName)
      (values : Memory) (ts : Option Memory) (status : ℕ)
      → ((s : S) → m.malloc s ≡ true)
      → usable_status g h m l status r ≡ true
      → IsKnown g h l.world r a group
      → (code : ℤ) × (l' : Library g h m) × (values' : Memory) × (ts' : Option Memory)
        × (pwr_grp_attr_get_value g h m l r attr (some values) ts status
            ≡ ret (code, l', some values', ts'))
        × IsReported g h m l
            (find_status_by_opaque g h m l status)
            (reference_at l.world r (items group.list))
            (λ k. attr)
            values
            ts
            (readings g h m l
              (reference_at l.world r (items group.list))
              (λ k. attr)
              (length (items group.list))
              0
              l.machine)
            code
            l'
            values'
            ts'
  unfolding pwr_grp_attr_get_value get_start
  grp_get_value-IsReported {S} m l r a group attr values ts status works usable known =
      let stat = find_status_by_opaque g h m l status in
      let object = reference_at l.world r (items group.list) in
      let n = length (items group.list) in
      let q = cleared l.queues stat in
      let final : Getting g h m = swept g h m l stat object (λ k. attr) n values ts in
      let after_num : Getting g h m → ℤ → Outcome (Answer g h m) = λ s num_objs. elim num_objs [
        | negsuc k ↦ ret (ret_invalid, s.library, some values, ts)
        | pos k ↦ do s1 ← grp_get_loop g h m k 0 s stat r attr; ret (answer g h m s1)
      ] in
      let whole : Getting g h m → Outcome (Answer g h m) =
        λ s. pwr_grp_get_num_objs g h s.library.world r >>= after_num s in
      let num : pwr_grp_get_num_objs g h l.world r ≡ ret (pos n) =
        num_objs-IsKnown g h l.world r a group known
        ∙ ap (λ k. ret (pos k)) (get_length_lem group.list) in
      let looped : grp_get_loop g h m n 0 (getting g h m l l.machine q values ts ret_success) stat r
            attr
          ≡ ret final =
        loop-sweep m works l stat r attr object n 0 l.machine q values ts ret_success
          (λ k lt. obj_by_indx-reference_at l.world r a k group known (omega arith))
        ∙ ap (λ (s : Getting g h m). ret s)
            (sweep-swept g h m l stat object (λ k. attr) n values ts works) in
      (
        final.retval,
        final.library,
        final.values,
        final.ts,
        rw usable (
            ap whole (starts_cleared g h m l stat object (λ k. attr) n values ts)
            ∙ ap
                (λ (x : Outcome ℤ).
                  x >>= after_num (getting g h m l l.machine q values ts ret_success))
                num
            ∙ ap
                (λ (x : Outcome (Getting g h m)).
                  x >>= (λ (s1 : Getting g h m). ret (answer g h m s1)))
                looped),
        swept-IsReported g h m l stat object (λ k. attr) n values ts,
      )
