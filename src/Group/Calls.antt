-- ===== src/Group/Calls.antt =====
-- lib/group.c, the functions PWR_Grp* that read a group, change it, or make a group of others.
use cray_pwrapi.Base.{
  ℕ, Bool, Option, none, some, ℤ, pos, negsuc, int_eq, ◌==◌, if◌then◌else◌, Outcome, ret, ◌>>=◌,
  update, get_elem?,
}
use cray_pwrapi.Types.{ret_success, ret_failure, ret_bad_index, ret_no_obj_at_index}
use cray_pwrapi.Glib.Sequence.{Sequence}
use cray_pwrapi.Glib.HashTable.{HashTable}
use cray_pwrapi.Opaque.Key.{opaque_generate, opaque_get_context_key, opaque_get_data_key}
use cray_pwrapi.Opaque.Map.{opaque_object, opaque_map_lookup_type}
use cray_pwrapi.Group.Ops.{
  Stats, Group, group_copy, group_get_length, group_insert_obj, group_remove_obj, group_union,
  group_intersection, group_difference, group_sym_difference,
}
use cray_pwrapi.Group.Api.{
  World, Reply, group_at, find_group_by_opaque, find_context_by_opaque, context_new_group,
  context_del_group,
}

module _ (g : Sequence) (h : HashTable ℕ ℕ) where
  open g use {Seq, items}

  unfoldable pub put_group : World g h → ℕ → Stats → Option (Group g) → World g h
  put_group w grp stats none = record w { stats = stats }
  put_group w grp stats (some group) = record w {
    groups = update w.groups grp (some group);
    stats = stats;
  }

  -- The text that PWR_GrpAddObj and PWR_GrpRemoveObj share, with the call by which they differ.
  unfoldable pub change_obj :
      (Stats → Option (Group g) → Option ℕ → Outcome (Bool × Stats × Option (Group g)))
      → World g h
      → ℕ
      → ℕ
      → Outcome (Reply g h)
  unfolding opaque_get_context_key opaque_get_data_key find_group_by_opaque group_at put_group
  change_obj change w group object =
      if opaque_get_context_key object == opaque_get_context_key group
      then (do
        found ← find_group_by_opaque g h w group
        elim found [
          | none ↦ ret (ret_failure, none, w)
          | some grp ↦
              elim (opaque_map_lookup_type h (some w.map) (opaque_get_data_key object)
                opaque_object) [
                  | none ↦ ret (ret_failure, none, w)
                  | some obj ↦ do
                    old ← group_at g h w grp
                    (changed, stats, new) ← change w.stats (some old) (some obj)
                    ret (
                      if changed then ret_success else ret_failure,
                      none,
                      put_group w grp stats new,
                    )
                ]
        ])
      else ret (ret_failure, none, w)

  unfoldable pub pwr_grp_add_obj : World g h → ℕ → ℕ → Outcome (Reply g h)
  unfolding change_obj group_insert_obj
  pwr_grp_add_obj w group object = change_obj (group_insert_obj g) w group object

  unfoldable pub pwr_grp_remove_obj : World g h → ℕ → ℕ → Outcome (Reply g h)
  unfolding change_obj group_remove_obj
  pwr_grp_remove_obj w group object = change_obj (group_remove_obj g) w group object

  -- The number of objects, or a failure.
  unfoldable pub pwr_grp_get_num_objs : World g h → ℕ → Outcome ℤ
  unfolding find_group_by_opaque group_at group_get_length
  pwr_grp_get_num_objs w group = do
    found ← find_group_by_opaque g h w group
    elim found [
      | none ↦ ret ret_failure
      | some grp ↦ do old ← group_at g h w grp; ret (group_get_length g (some old))
    ]

  -- The reference of the object at an index.
  unfoldable pub pwr_grp_get_obj_by_indx : World g h → ℕ → ℤ → Outcome (ℤ × Option ℕ)
  unfolding find_group_by_opaque group_at opaque_generate opaque_get_context_key
  pwr_grp_get_obj_by_indx w group (negsuc i) = ret (ret_bad_index, none)
  pwr_grp_get_obj_by_indx w group (pos i) = do
    found ← find_group_by_opaque g h w group
    elim found [
      | none ↦ ret (ret_failure, none)
      | some grp ↦ do
        old ← group_at g h w grp
        elim (get_elem? (items old.list) i) [
          | none ↦ ret (ret_no_obj_at_index, none)
          | some obj ↦ ret (
            ret_success,
            some (opaque_generate (opaque_get_context_key group) (w.map.refs obj).key),
          )
        ]
    ]

  unfoldable pub put_list : World g h → ℕ → Group g → Option Seq → World g h
  put_list w grp group none = w
  put_list w grp group (some list) = record w {
    groups = update w.groups grp (some (record group { list = list }));
  }

  -- A new group of the context `ctx` under the key `ctx_key`, with the list that a call builds of
  -- it. The group is deleted if the call fails.
  unfoldable pub build_group :
      (Option Seq → ℤ × Option Seq) → World g h → ℕ → ℕ → Outcome (Reply g h)
  unfolding context_new_group context_del_group group_at put_list opaque_generate
  build_group build w ctx ctx_key = do
    (grp, w1) ← context_new_group g h w ctx
    new ← group_at g h w1 grp
    let (code, out) = build (some new.list)
    let w2 = put_list w1 grp new out
    if int_eq code (pos 0)
        then ret (ret_success, some (opaque_generate ctx_key (w2.map.refs grp).key), w2)
        else (do w3 ← context_del_group g h w2 ctx grp; ret (ret_failure, none, w3))

  unfoldable pub pwr_grp_duplicate : World g h → ℕ → Outcome (Reply g h)
  unfolding find_group_by_opaque find_context_by_opaque group_at build_group group_copy
      opaque_get_context_key
  pwr_grp_duplicate w group1 = do
    found ← find_group_by_opaque g h w group1
    elim found [
      | none ↦ ret (ret_failure, none, w)
      | some grp1 ↦ elim (find_context_by_opaque g h w group1) [
        | none ↦ ret (ret_failure, none, w)
        | some ctx ↦ do
          old ← group_at g h w grp1
          build_group (group_copy g (some old.list)) w ctx (opaque_get_context_key group1)
      ]
    ]

  -- The text that PWR_GrpUnion, PWR_GrpIntersection, PWR_GrpDifference and PWR_GrpSymDifference
  -- share, with the call by which they differ.
  unfoldable pub combine :
      (Option Seq → Option Seq → Option Seq → ℤ × Option Seq)
      → World g h
      → ℕ
      → ℕ
      → Outcome (Reply g h)
  unfolding opaque_get_context_key find_group_by_opaque find_context_by_opaque group_at build_group
  combine operation w group1 group2 =
      if opaque_get_context_key group1 == opaque_get_context_key group2
      then (do
        found1 ← find_group_by_opaque g h w group1
        elim found1 [
          | none ↦ ret (ret_failure, none, w)
          | some grp1 ↦ do
            found2 ← find_group_by_opaque g h w group2
            elim found2 [
              | none ↦ ret (ret_failure, none, w)
              | some grp2 ↦ elim (find_context_by_opaque g h w group1) [
                | none ↦ ret (ret_failure, none, w)
                | some ctx ↦ do
                  old1 ← group_at g h w grp1
                  old2 ← group_at g h w grp2
                  build_group (operation (some old1.list) (some old2.list)) w ctx
                      (opaque_get_context_key group1)
              ]
            ]
        ])
      else ret (ret_failure, none, w)

  unfoldable pub pwr_grp_union : World g h → ℕ → ℕ → Outcome (Reply g h)
  unfolding combine group_union
  pwr_grp_union w group1 group2 = combine (group_union g) w group1 group2

  unfoldable pub pwr_grp_intersection : World g h → ℕ → ℕ → Outcome (Reply g h)
  unfolding combine group_intersection
  pwr_grp_intersection w group1 group2 = combine (group_intersection g) w group1 group2

  unfoldable pub pwr_grp_difference : World g h → ℕ → ℕ → Outcome (Reply g h)
  unfolding combine group_difference
  pwr_grp_difference w group1 group2 = combine (group_difference g) w group1 group2

  unfoldable pub pwr_grp_sym_difference : World g h → ℕ → ℕ → Outcome (Reply g h)
  unfolding combine group_sym_difference
  pwr_grp_sym_difference w group1 group2 = combine (group_sym_difference g) w group1 group2
