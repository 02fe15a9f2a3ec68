-- ===== src/Group/Api.antt =====
-- lib/group.c, the functions PWR_Grp*, with what they call of lib/context.c: they find structures by
-- their opaque references and run the operations of `Group.Ops` on them.
use cray_pwrapi.Base.{
  ℕ, ◌+◌, List, [], ◌∷◌, Option, none, some, ℤ, ◌==◌, if◌then◌else◌, Outcome, ret, fault, ◌>>=◌,
  update,
}
use cray_pwrapi.Types.{ret_success, ret_failure}
use cray_pwrapi.Glib.Sequence.{Sequence}
use cray_pwrapi.Glib.HashTable.{HashTable}
use cray_pwrapi.Opaque.Key.{opaque_generate, opaque_get_context_key, opaque_get_data_key}
use cray_pwrapi.Opaque.Map.{
  opaque_group, opaque_context, OpaqueMap, opaque_map_lookup_type, opaque_map_insert,
  opaque_map_remove,
}
use cray_pwrapi.Group.Ops.{Stats, live, Group, group_invalidate_statistics}

module _ (g : Sequence) (h : HashTable ℕ ℕ) where
  -- The memory of the library: the map of opaque keys with the references, the groups by address
  -- (`none` once freed), the list of groups of each context, the statistics, and the next address
  -- that an allocation returns.
  pub record World : Type 0 where
    pub map : OpaqueMap h
    pub groups : ℕ → Option (Group g)
    pub group_list : ℕ → List ℕ
    pub stats : Stats
    pub next : ℕ

  -- A read through a pointer to a group.
  unfoldable pub group_at : World → ℕ → Outcome (Group g)
  group_at w a = elim (w.groups a) [ none ↦ fault | some group ↦ ret group ]

  unfoldable pub find_group_by_opaque : World → ℕ → Outcome (Option ℕ)
  unfolding opaque_get_context_key opaque_get_data_key group_at
  find_group_by_opaque w group =
      elim (opaque_map_lookup_type h (some w.map) (opaque_get_data_key group) opaque_group) [
        | none ↦ ret none
        | some grp ↦ do
          found ← group_at w grp
          ret (if opaque_get_context_key group == found.context_key then some grp else none)
      ]

  unfoldable pub find_context_by_opaque : World → ℕ → Option ℕ
  unfolding opaque_get_context_key opaque_get_data_key
  find_context_by_opaque w opaque =
      let ctx_key = opaque_get_context_key opaque in
      elim (opaque_map_lookup_type h (some w.map) ctx_key opaque_context) [
        | none ↦ none
        | some ctx ↦ if ctx_key == opaque_get_data_key (w.map.refs ctx).key then some ctx else none
      ]

  -- `fault` where the random numbers for a key do not suffice.
  unfoldable pub new_group : World → Outcome (ℕ × World)
  unfolding opaque_map_insert
  new_group w = elim (opaque_map_insert h (some w.map) opaque_group w.next) [
    | some (key, some map) ↦ ret (
      w.next,
      record w {
        map = map;
        groups =
            update w.groups w.next
              (some (record { context_key = 0; list = g.new; stat_list = live [] }));
        next = w.next + 1;
      },
    )
    | _ ↦ fault
  ]

  unfoldable pub context_new_group : World → ℕ → Outcome (ℕ × World)
  unfolding new_group group_at
  context_new_group w ctx = do
    (grp, w1) ← new_group w
    group ← group_at w1 grp
    ret (
      grp,
      record w1 {
        groups = update w1.groups grp (some (record group { context_key = (w1.map.refs ctx).key }));
        group_list = update w1.group_list ctx (grp ∷ w1.group_list ctx);
      },
    )

  -- The reference is read after the statistics are released, and the group is freed at the end.
  unfoldable pub del_group : World → ℕ → Outcome World
  unfolding group_at group_invalidate_statistics opaque_map_remove
  del_group w grp = do
    group ← group_at w grp
    (stats, list) ← group_invalidate_statistics w.stats group.stat_list
    let (removed, map) = opaque_map_remove h (some w.map) (w.map.refs grp).key
    elim map [
      | none ↦ fault
      | some map' ↦ ret (record w {
        map = if (w.map.refs grp).key == 0 then w.map else map';
        groups = update w.groups grp none;
        stats = stats;
      })
    ]

  abbrev pub without_link : List ℕ → ℕ → List ℕ
  without_link [] grp = []
  without_link (x ∷ xs) grp = if x == grp then xs else x ∷ without_link xs grp

  unfoldable pub context_del_group : World → ℕ → ℕ → Outcome World
  unfolding del_group
  context_del_group w ctx grp =
      del_group
        (record w { group_list = update w.group_list ctx (without_link (w.group_list ctx) grp) })
        grp

  -- The results of the functions below: the status, what is stored through the last pointer if
  -- anything is, and the memory.
  abbrev pub Reply : Type 0
  Reply = ℤ × Option ℕ × World

  unfoldable pub pwr_grp_create : World → ℕ → Outcome Reply
  unfolding opaque_get_context_key opaque_get_data_key opaque_generate context_new_group
  pwr_grp_create w context =
      let ctx_key = opaque_get_context_key context in
      if ctx_key == opaque_get_data_key context
      then elim (opaque_map_lookup_type h (some w.map) ctx_key opaque_context) [
        | none ↦ ret (ret_failure, none, w)
        | some ctx ↦ do
          (grp, w1) ← context_new_group w ctx
          ret (ret_success, some (opaque_generate (w1.map.refs ctx).key (w1.map.refs grp).key), w1)
      ]
      else ret (ret_failure, none, w)

  unfoldable pub pwr_grp_destroy : World → ℕ → Outcome Reply
  unfolding find_group_by_opaque find_context_by_opaque context_del_group
  pwr_grp_destroy w group = do
    found ← find_group_by_opaque w group
    elim found [
      | none ↦ ret (ret_failure, none, w)
      | some grp ↦ elim (find_context_by_opaque w group) [
        | none ↦ ret (ret_failure, none, w)
        | some ctx ↦ do w1 ← context_del_group w ctx grp; ret (ret_success, none, w1)
      ]
    ]
