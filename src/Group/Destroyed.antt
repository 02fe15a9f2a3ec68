-- ===== src/Group/Destroyed.antt =====
-- lib/group.c: PWR_GrpDestroy, and what its reference is good for afterwards.
use cray_pwrapi.Base.{
  ℕ, ◌≡◌, ◌≢◌, refl, ◌∙◌, false, none, some, ◌==◌, arith, ret, ◌>>=◌, update, update_self,
  Option-cases, Bool-cases, if◌then◌else◌, inl, inr,
}
use cray_pwrapi.Types.{ret_success, ret_failure}
use cray_pwrapi.Glib.Sequence.{Sequence}
use cray_pwrapi.Glib.HashTable.{HashTable}
use cray_pwrapi.Opaque.Key.{opaque_get_context_key, opaque_get_data_key}
use cray_pwrapi.Opaque.Map.{
  opaque_group, type_code, OpaqueMap, opaque_map_lookup, opaque_map_lookup_type, opaque_map_remove,
  opaque_map_clean_entry,
}
use cray_pwrapi.Group.Ops.{Group}
use cray_pwrapi.Group.Member.{IsLive, invalidate_live}
use cray_pwrapi.Group.Api.{
  World, find_group_by_opaque, del_group, context_del_group, without_link, pwr_grp_destroy,
}
use cray_pwrapi.Group.Calls.{pwr_grp_get_num_objs, pwr_grp_duplicate}
use cray_pwrapi.Group.References.{IsKnown, IsContext, group_at-some, find_group-IsKnown}
use cray_pwrapi.Group.Combined.{find_context-IsContext}

module _ (g : Sequence) (h : HashTable ℕ ℕ) where
  missing_key :
      (m : OpaqueMap h) (key : ℕ)
      → h.lookup m.table key ≡ none
      → opaque_map_lookup_type h (some m) key opaque_group ≡ none
  unfolding opaque_map_lookup_type opaque_map_lookup
  missing_key m key e = rw (e, opaque_map_lookup_type) refl

  found_key :
      (m : OpaqueMap h) (key a : ℕ)
      → opaque_map_lookup_type h (some m) key opaque_group ≡ some a
      → h.lookup m.table key ≡ some a
  unfolding opaque_map_lookup_type opaque_map_lookup
  found_key m key a e = elim (Option-cases (h.lookup m.table key)) [
    | inl free ↦ cc (rw (free, opaque_map_lookup_type) at e)
    | inr (b, taken) ↦
        let tested : (if type_code (m.refs b).type_of == type_code opaque_group
              then some b
              else none)
            ≡ some a =
          rw (taken, opaque_map_lookup_type) at e in
        elim (Bool-cases (type_code (m.refs b).type_of == type_code opaque_group)) [
          | inl y ↦ taken ∙ rw y at tested
          | inr n ↦ cc (rw n at tested)
        ]
  ]

  refused :
      (w : World g h) (r : ℕ)
      → h.lookup w.map.table (opaque_get_data_key r) ≡ none
      → find_group_by_opaque g h w r ≡ ret none
  unfolding find_group_by_opaque
  refused w r e = rw (missing_key w.map (opaque_get_data_key r) e, find_group_by_opaque) refl

  del_group-removes :
      (w : World g h) (a key : ℕ) (group : Group g)
      → w.groups a ≡ some group
      → IsLive group.stat_list
      → (w.map.refs a).key ≡ key
      → key ≢ 0
      → h.lookup w.map.table key ≡ some a
      → (w' : World g h) × (del_group g h w a ≡ ret w')
        × (w'.groups a ≡ none)
        × (h.lookup w'.map.table key ≡ none)
  unfolding del_group opaque_map_remove opaque_map_clean_entry
  del_group-removes w a key group here usable keeps nonzero found =
      let (stats', l', inv) = invalidate_live w.stats group.stat_list usable in
      let not_null : ((w.map.refs a).key == 0) ≡ false = rw keeps (ground arith) in
      let removed : h.lookup w.map.table (w.map.refs a).key ≡ some a = rw keeps found in
      (
        record w {
          map = record w.map {
            table = h.remove w.map.table (w.map.refs a).key;
            refs = opaque_map_clean_entry h w.map.refs a;
          };
          groups = update w.groups a none;
          stats = stats';
        },
        rw (group_at-some g h w a group here, del_group)
            (rw (inv, ◌>>=◌) (rw (removed, opaque_map_remove) (rw not_null refl))),
        update_self w.groups a none,
        rw keeps (h.lookup-remove_self w.map.table key),
      )

  -- A reference that is not NULL in its lower half stands for a group whose list of statistics has
  -- not been released, in a known context. PWR_GrpDestroy of it succeeds and frees the group;
  -- after that PWR_GrpGetNumObjs, PWR_GrpDuplicate and a second PWR_GrpDestroy of the same
  -- reference return failure and change nothing.
  pub destroyed_refused :
      (w : World g h) (r a ctx : ℕ) (group : Group g)
      → IsKnown g h w r a group
      → IsContext g h w (opaque_get_context_key r) ctx
      → IsLive group.stat_list
      → opaque_get_data_key r ≢ 0
      → (w' : World g h) × (pwr_grp_destroy g h w r ≡ ret (ret_success, none, w'))
        × (w'.groups a ≡ none)
        × (pwr_grp_get_num_objs g h w' r ≡ ret ret_failure)
        × (pwr_grp_duplicate g h w' r ≡ ret (ret_failure, none, w'))
        × (pwr_grp_destroy g h w' r ≡ ret (ret_failure, none, w'))
  unfolding pwr_grp_destroy context_del_group pwr_grp_get_num_objs pwr_grp_duplicate
  destroyed_refused w r a ctx group known context usable nonzero =
      let unlinked : World g h = record w {
        group_list = update w.group_list ctx (without_link g h (w.group_list ctx) a);
      } in
      let (w', deleted, freed, gone) =
        del_group-removes unlinked a (opaque_get_data_key r) group known.here usable known.keeps_key
          nonzero (found_key w.map (opaque_get_data_key r) a known.finds) in
      let no_group = refused w' r gone in
      (
        w',
        rw (find_group-IsKnown g h w r a group known, ◌>>=◌)
            (rw (find_context-IsContext g h w r ctx context) (rw (deleted, ◌>>=◌) refl)),
        freed,
        rw (no_group, pwr_grp_get_num_objs) refl,
        rw (no_group, pwr_grp_duplicate) refl,
        rw (no_group, pwr_grp_destroy) refl,
      )
