-- ===== src/Group/Member.antt =====
-- group_insert_obj and group_remove_obj of lib/group.c: the group stays ascending and gains or
-- loses exactly the object; and what becomes of the group's statistics.
use cray_pwrapi.Base.{
  sign_of, ℕ, ◌≡◌, ◌≢◌, refl, inl, inr, List, [], ◌∷◌, Bool, true, false, ◌||◌, ◌&&◌, not, Option,
  none, some, arith, ◌==◌, contains, get_elem?, Outcome, ret, fault, Option-cases,
}
use cray_pwrapi.Glib.Sequence.{Sequence}
use cray_pwrapi.Group.Sorted.{Ascending}
use cray_pwrapi.Group.Walk.{group_compare_obj}
use cray_pwrapi.Group.Order.{
  eq_of_same, Ascending-SortedBy, contains-NoneSame, Ascending-insert, contains-insert,
  Ascending-remove_at, contains-remove_at, contains_of_get,
}
use cray_pwrapi.Group.Ops.{
  Stats, StatList, live, released, Group, group_invalidate_statistics, invalidate_all, insert_new,
  remove_found, group_insert_obj, group_remove_obj,
}

-- The list of statistics is NULL or in use, not released.
abbrev pub IsLive : StatList → Type 0
IsLive (live ss) = Unit {0}
IsLive released = ⊥

pub invalidate_live :
    (stats : Stats) (l : StatList)
    → IsLive l
    → (stats' : Stats) × (l' : StatList) × (group_invalidate_statistics stats l ≡ ret (stats', l'))
unfolding group_invalidate_statistics
invalidate_live stats (live []) h = (stats, live [], refl)
invalidate_live stats (live (s ∷ ss)) h = (_, released, refl)
invalidate_live stats released h = absurd h

compare_is_sign : (x y : ℕ) → group_compare_obj x y ≡ sign_of x y
unfolding group_compare_obj
compare_is_sign x y = refl

module _ (g : Sequence) where
  open g use {Seq, items, lookup, insert_sorted, remove, lookup-some, lookup-none}

  -- A call that succeeds: what it leaves of the group, and its members as a test.
  abbrev pub Leaves : Outcome (Bool × Stats × Option (Group g)) → Group g → (ℕ → Bool) → Type 0
  Leaves r group members =
      (stats' : Stats) × (group' : Group g) × (r ≡ ret (true, stats', some group'))
      × Ascending (items group'.list)
      × ((a : ℕ) → contains (items group'.list) a ≡ members a)
      × (group'.context_key ≡ group.context_key)

  found :
      (list : Seq) (obj i : ℕ)
      → lookup group_compare_obj list obj ≡ some i
      → get_elem? (items list) i ≡ some obj
  found list obj i e =
      let (y, got, eq) = lookup-some group_compare_obj list obj i e in
      rw (← eq_of_same y obj eq) got

  missing :
      (list : Seq) (obj : ℕ)
      → contains (items list) obj ≡ false
      → lookup group_compare_obj list obj ≡ none
  missing list obj h = elim (Option-cases (lookup group_compare_obj list obj)) [
    | inl e ↦ e
    | inr (i, e) ↦ cc (contains_of_get i obj (items list) (found list obj i e))
  ]

  contains-insert_sorted :
      (list : Seq) (obj a : ℕ)
      → Ascending (items list)
      → contains (items (insert_sorted group_compare_obj list obj)) a
        ≡ ((a == obj) || contains (items list) a)
  contains-insert_sorted list obj a sorted =
      let (front, back, before, after, _) =
        g.items-insert_sorted group_compare_obj (λ x. x) list obj compare_is_sign
          (Ascending-SortedBy (items list) sorted) in
      rw (after, before) (contains-insert obj a front back)

  module _ (stats : Stats) (group : Group g) (obj : ℕ) (sorted : Ascending (items group.list))
      (usable : IsLive group.stat_list) where
    insert_present :
        (i : ℕ)
        → lookup group_compare_obj group.list obj ≡ some i
        → Leaves
            (group_insert_obj g stats (some group) (some obj))
            group
            (λ a. (a == obj) || contains (items group.list) a)
    unfolding group_insert_obj
    insert_present i e = (
      stats,
      group,
      rw (e, group_insert_obj) refl,
      sorted,
      (λ a. ground (arith, contains_of_get i obj (items group.list) (found group.list obj i e))),
      refl,
    )

    insert_absent :
        lookup group_compare_obj group.list obj ≡ none
        → Leaves
            (group_insert_obj g stats (some group) (some obj))
            group
            (λ a. (a == obj) || contains (items group.list) a)
    unfolding group_insert_obj insert_new
    insert_absent e =
        let (stats', l', inv) = invalidate_live stats group.stat_list usable in
        let (front, back, before, after, s) =
          g.items-insert_sorted group_compare_obj (λ x. x) group.list obj compare_is_sign
            (Ascending-SortedBy (items group.list) sorted) in
        let none_same =
          lookup-none group_compare_obj group.list obj
            (Ascending-SortedBy (items group.list) sorted) e in
        (
          stats',
          record group { list = insert_sorted group_compare_obj group.list obj; stat_list = l' },
          rw (e, group_insert_obj, inv, insert_new) refl,
          rw after (
              Ascending-insert obj front back (rw before at sorted) (rw before at none_same)
                (rw after at s)),
          (λ a. contains-insert_sorted group.list obj a sorted),
          refl,
        )

    -- For a group in ascending order whose list of statistics has not been released,
    -- group_insert_obj returns true and leaves the group in ascending order, under its context, with
    -- the given object and its former members as its members, whether or not the object was in
    -- the group before.
    pub insert_obj_members :
        Leaves
          (group_insert_obj g stats (some group) (some obj))
          group
          (λ a. (a == obj) || contains (items group.list) a)
    insert_obj_members = elim (Option-cases (lookup group_compare_obj group.list obj)) [
      | inl e ↦ insert_absent e
      | inr (i, e) ↦ insert_present i e
    ]

    remove_present :
        (i : ℕ)
        → lookup group_compare_obj group.list obj ≡ some i
        → Leaves
            (group_remove_obj g stats (some group) (some obj))
            group
            (λ a. contains (items group.list) a && not (a == obj))
    unfolding group_remove_obj remove_found
    remove_present i e =
        let (stats', l', inv) = invalidate_live stats group.stat_list usable in
        (
          stats',
          record group { list = remove group.list i; stat_list = l' },
          rw (e, group_remove_obj, inv, remove_found) refl,
          rw (g.items-remove group.list i) (Ascending-remove_at i (items group.list) sorted),
          (λ a.
              rw (g.items-remove group.list i)
                (contains-remove_at i obj a (items group.list) sorted (found group.list obj i e))),
          refl,
        )

    remove_absent :
        lookup group_compare_obj group.list obj ≡ none
        → Leaves
            (group_remove_obj g stats (some group) (some obj))
            group
            (λ a. contains (items group.list) a && not (a == obj))
    unfolding group_remove_obj
    remove_absent e =
        let none_same =
          lookup-none group_compare_obj group.list obj
            (Ascending-SortedBy (items group.list) sorted) e in
        (
          stats,
          group,
          rw (e, group_remove_obj) refl,
          sorted,
          (λ a. ground (arith, contains-NoneSame obj (items group.list) none_same)),
          refl,
        )

    -- For a group in ascending order whose list of statistics has not been released,
    -- group_remove_obj returns true and leaves the group in ascending order, under its context, with
    -- its former members other than the given object as its members, whether or not the object
    -- was in the group before.
    pub remove_obj_members :
        Leaves
          (group_remove_obj g stats (some group) (some obj))
          group
          (λ a. contains (items group.list) a && not (a == obj))
    remove_obj_members = elim (Option-cases (lookup group_compare_obj group.list obj)) [
      | inl e ↦ remove_absent e
      | inr (i, e) ↦ remove_present i e
    ]

  insert_released :
      (stats : Stats) (group : Group g) (obj : ℕ)
      → group.stat_list ≡ released
      → contains (items group.list) obj ≡ false
      → group_insert_obj g stats (some group) (some obj) ≡ fault
  unfolding group_insert_obj insert_new group_invalidate_statistics
  insert_released stats group obj e h =
      rw (missing group.list obj h, group_insert_obj) (ground arith)

  -- A group in ascending order that statistics monitor takes one object that is new to it. The
  -- next call of group_insert_obj with an object new to it frees the released nodes of the list
  -- of statistics again.
  pub insert_twice_faults :
      (stats : Stats) (group : Group g) (s : ℕ) (ss : List ℕ) (obj1 obj2 : ℕ)
      → Ascending (items group.list)
      → group.stat_list ≡ live (s ∷ ss)
      → contains (items group.list) obj1 ≡ false
      → contains (items group.list) obj2 ≡ false
      → obj2 ≢ obj1
      → (stats' : Stats) × (group' : Group g) × (group_insert_obj g stats (some group) (some obj1)
          ≡ ret (true, stats', some group'))
        × (group_insert_obj g stats' (some group') (some obj2) ≡ fault)
  unfolding group_insert_obj insert_new group_invalidate_statistics
  insert_twice_faults stats group s ss obj1 obj2 sorted e h1 h2 ne =
      let group' : Group g = record group {
        list = insert_sorted group_compare_obj group.list obj1;
        stat_list = released;
      } in
      (
        invalidate_all stats (s ∷ ss),
        group',
        rw (missing group.list obj1 h1, group_insert_obj) (ground arith),
        insert_released (invalidate_all stats (s ∷ ss)) group' obj2 refl
            (ground (arith, contains-insert_sorted group.list obj1 obj2 sorted)),
      )
