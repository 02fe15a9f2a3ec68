-- ===== src/Group/Objects.antt =====
-- lib/group.c: PWR_GrpAddObj, PWR_GrpRemoveObj and PWR_GrpGetObjByIndx on a group that a reference
-- stands for.
use cray_pwrapi.Base.{
  ℕ, ◌≡◌, refl, sym, ◌∙◌, Bool, true, false, ◌||◌, ◌&&◌, not, Option, none, some, contains, ◌==◌,
  arith, Outcome, ret, ◌>>=◌, update, update_self, update_ne,
}
use cray_pwrapi.Types.{ret_success}
use cray_pwrapi.Glib.Sequence.{Sequence}
use cray_pwrapi.Glib.HashTable.{HashTable}
use cray_pwrapi.Opaque.Key.{opaque_get_context_key, opaque_get_data_key}
use cray_pwrapi.Opaque.Map.{opaque_object, opaque_map_lookup_type}
use cray_pwrapi.Group.Sorted.{Ascending}
use cray_pwrapi.Group.Ops.{Stats, Group, group_insert_obj, group_remove_obj}
use cray_pwrapi.Group.Member.{IsLive, Leaves, insert_obj_members, remove_obj_members}
use cray_pwrapi.Group.Api.{World, Reply}
use cray_pwrapi.Group.Calls.{change_obj, put_group, pwr_grp_add_obj, pwr_grp_remove_obj}
use cray_pwrapi.Group.References.{IsKnown, group_at-some, find_group-IsKnown}

module _ (g : Sequence) (h : HashTable ℕ ℕ) where
  open g use {items}

  -- A reply of success after which the reference stands for a group in ascending order with the
  -- members tested for, and every other group is as it was.
  pub record Edits (w : World g h) (r a : ℕ) (reply : Outcome (Reply g h)) (members : ℕ → Bool)
      : Type 0 where
    pub after : World g h
    pub group : Group g
    pub replies : reply ≡ ret (ret_success, none, after)
    pub known : IsKnown g h after r a group
    pub sorted : Ascending (items group.list)
    pub holds : (x : ℕ) → contains (items group.list) x ≡ members x
    pub others : (b : ℕ) → (b == a) ≡ false → after.groups b ≡ w.groups b

  module _ (w : World g h) (r a object obj : ℕ) (group : Group g) (known : IsKnown g h w r a group)
      (one_context : opaque_get_context_key object ≡ opaque_get_context_key r)
      (is_object : opaque_map_lookup_type h (some w.map) (opaque_get_data_key object) opaque_object
        ≡ some obj) where
    change_obj-Edits :
        (change : Stats → Option (Group g) → Option ℕ → Outcome (Bool × Stats × Option (Group g)))
        (members : ℕ → Bool)
        → Leaves g (change w.stats (some group) (some obj)) group members
        → Edits w r a (change_obj g h change w r object) members
    unfolding change_obj put_group
    change_obj-Edits change members (stats', group', changed, sorted, holds, context) =
        let test : (opaque_get_context_key object == opaque_get_context_key r) ≡ true =
          rw one_context (ground arith) in
        let after : World g h = record w {
          groups = update w.groups a (some group');
          stats = stats';
        } in
        record {
          after = after;
          group = group';
          replies =
              rw (test, change_obj)
                (rw (find_group-IsKnown g h w r a group known, ◌>>=◌)
                  (rw is_object
                    (rw (group_at-some g h w a group known.here, ◌>>=◌) (rw changed refl))));
          known = record {
            finds = known.finds;
            here = update_self w.groups a (some group');
            same_context = known.same_context ∙ sym context;
            keeps_key = known.keeps_key;
          };
          sorted = sorted;
          holds = holds;
          others = λ b ne. update_ne w.groups a b (some group') ne;
        }

    -- For a reference that stands for a group in ascending order whose list of statistics has not
    -- been released, and a reference to an object of the same context: PWR_GrpAddObj and
    -- PWR_GrpRemoveObj each return success, the first reference then stands for a group in
    -- ascending order with the object added or removed, and every other group is as it was.
    pub add_remove_obj-Edits :
        Ascending (items group.list)
        → IsLive group.stat_list
        → Edits w r a
            (pwr_grp_add_obj g h w r object)
            (λ x. (x == obj) || contains (items group.list) x)
          × Edits w r a
              (pwr_grp_remove_obj g h w r object)
              (λ x. contains (items group.list) x && not (x == obj))
    unfolding pwr_grp_add_obj pwr_grp_remove_obj
    add_remove_obj-Edits sorted usable = (
      change_obj-Edits (group_insert_obj g) (λ x. (x == obj) || contains (items group.list) x)
          (insert_obj_members g w.stats group obj sorted usable),
      change_obj-Edits (group_remove_obj g) (λ x. contains (items group.list) x && not (x == obj))
          (remove_obj_members g w.stats group obj sorted usable),
    )
