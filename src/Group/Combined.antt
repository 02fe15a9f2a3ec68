-- ===== src/Group/Combined.antt =====
-- lib/group.c: PWR_GrpUnion, PWR_GrpIntersection, PWR_GrpDifference and PWR_GrpSymDifference give a
-- reference to a new group.
use cray_pwrapi.Base.{
  ℕ, ◌^◌, ◌<◌, ◌≡◌, refl, ap, ◌∙◌, Bool, true, false, ◌||◌, ◌&&◌, not, xor, Option, some, ℤ, pos,
  contains, ◌==◌, arith, Outcome, ret, ◌>>=◌, update, update_self, update_ne,
}
use cray_pwrapi.Types.{ret_success}
use cray_pwrapi.Glib.Sequence.{Sequence}
use cray_pwrapi.Glib.HashTable.{HashTable}
use cray_pwrapi.Opaque.Key.{opaque_generate, opaque_get_context_key, opaque_get_data_key}
use cray_pwrapi.Group.Sorted.{Ascending}
use cray_pwrapi.Group.Ops.{
  Group, group_union, group_intersection, group_difference, group_sym_difference,
}
use cray_pwrapi.Group.Algebra.{
  union_members, intersection_members, difference_members, sym_difference_members,
}
use cray_pwrapi.Group.Api.{World, Reply, find_context_by_opaque}
use cray_pwrapi.Group.Calls.{
  put_list, build_group, combine, pwr_grp_union, pwr_grp_intersection, pwr_grp_difference,
  pwr_grp_sym_difference,
}
use cray_pwrapi.Group.References.{
  IsKnown, IsContext, HasRoom, group_at-some, find_group-IsKnown, context_new_group-IsNew,
}
use cray_pwrapi.Group.Created.{fresh, reference-IsKnown}

module _ (g : Sequence) (h : HashTable ℕ ℕ) where
  open g use {Seq, items, items-new}

  -- The reply of a call that makes a new group of the given context: success, a reference to it, the
  -- list that was built, and every other group as it was.
  pub record Makes (w : World g h) (ctx_key : ℕ) (list : Seq) (reply : Outcome (Reply g h))
      : Type 0 where
    pub after : World g h
    pub reference : ℕ
    pub replies : reply ≡ ret (ret_success, some reference, after)
    pub known : IsKnown g h after reference w.next (fresh g h ctx_key list)
    pub others : (a : ℕ) → (a == w.next) ≡ false → after.groups a ≡ w.groups a

  build_group-Makes :
      (build : Option Seq → ℤ × Option Seq) (w : World g h) (ctx ctx_key : ℕ) (list : Seq)
      → build (some g.new) ≡ (pos 0, some list)
      → IsContext g h w ctx_key ctx
      → HasRoom g h w ctx
      → Makes w ctx_key list (build_group g h build w ctx ctx_key)
  unfolding build_group put_list
  build_group-Makes build w ctx ctx_key list built context room =
      let (w1, key, eq, new) = context_new_group-IsNew g h w ctx room in
      let first : w1.groups w.next ≡ some (fresh g h ctx_key g.new) =
        new.made ∙ ap (λ k. some (fresh g h k g.new)) context.keeps_key in
      let w2 : World g h = record w1 {
        groups = update w1.groups w.next (some (fresh g h ctx_key list));
      } in
      record {
        after = w2;
        reference = opaque_generate ctx_key key;
        replies =
            rw (eq, build_group)
              (rw (group_at-some g h w1 w.next (fresh g h ctx_key g.new) first) (
                rw built (
                  ap (λ k. ret (ret_success, some (opaque_generate ctx_key k), w2))
                    new.keeps_key)));
        known =
            reference-IsKnown g h w2 w.next ctx_key key (fresh g h ctx_key list) context.small
              new.small new.finds (update_self w1.groups w.next (some (fresh g h ctx_key list)))
              refl new.keeps_key;
        others = λ a ne.
            update_ne w1.groups w.next a (some (fresh g h ctx_key list)) ne ∙ new.others a ne;
      }

  -- Two known groups of one known context, and room for a third.
  pub record HasOperands (w : World g h) (ctx r1 r2 a1 a2 : ℕ) (group1 group2 : Group g)
      : Type 0 where
    pub known1 : IsKnown g h w r1 a1 group1
    pub known2 : IsKnown g h w r2 a2 group2
    pub one_context : opaque_get_context_key r1 ≡ opaque_get_context_key r2
    pub context : IsContext g h w (opaque_get_context_key r1) ctx
    pub room : HasRoom g h w ctx

  own_data_key : (k : ℕ) → k < 2 ^ 32 → (k == opaque_get_data_key k) ≡ true
  unfolding opaque_get_data_key
  own_data_key k lt = ground arith

  pub find_context-IsContext :
      (w : World g h) (r ctx : ℕ)
      → IsContext g h w (opaque_get_context_key r) ctx
      → find_context_by_opaque g h w r ≡ some ctx
  unfolding find_context_by_opaque
  find_context-IsContext w r ctx k =
      let test : (opaque_get_context_key r == opaque_get_data_key (w.map.refs ctx).key) ≡ true =
        rw k.keeps_key (own_data_key (opaque_get_context_key r) k.small) in
      rw (k.finds, find_context_by_opaque) (rw test refl)

  combine-Makes :
      (operation : Option Seq → Option Seq → Option Seq → ℤ × Option Seq) (w : World g h)
      (ctx r1 r2 a1 a2 : ℕ) (group1 group2 : Group g) (list : Seq)
      → HasOperands w ctx r1 r2 a1 a2 group1 group2
      → operation (some group1.list) (some group2.list) (some g.new) ≡ (pos 0, some list)
      → Makes w (opaque_get_context_key r1) list (combine g h operation w r1 r2)
  unfolding combine
  combine-Makes operation w ctx r1 r2 a1 a2 group1 group2 list o built =
      let test : (opaque_get_context_key r1 == opaque_get_context_key r2) ≡ true =
        rw o.one_context (ground arith) in
      rw (test, combine)
        (rw (find_group-IsKnown g h w r1 a1 group1 o.known1, ◌>>=◌)
          (rw (find_group-IsKnown g h w r2 a2 group2 o.known2, ◌>>=◌)
            (rw (find_context-IsContext w r1 ctx o.context) (
              rw (group_at-some g h w a1 group1 o.known1.here, ◌>>=◌)
                (rw (group_at-some g h w a2 group2 o.known2.here, ◌>>=◌)
                  (build_group-Makes (operation (some group1.list) (some group2.list)) w ctx
                    (opaque_get_context_key r1) list built o.context o.room))))))

  -- A new group in ascending order with the members tested for.
  abbrev pub Combines : World g h → ℕ → Outcome (Reply g h) → (ℕ → Bool) → Type 0
  Combines w r1 reply members =
      (list : Seq) × Makes w (opaque_get_context_key r1) list reply
      × Ascending (items list)
      × ((a : ℕ) → contains (items list) a ≡ members a)

  module _ (w : World g h) (ctx r1 r2 a1 a2 : ℕ) (group1 group2 : Group g)
      (operands : HasOperands w ctx r1 r2 a1 a2 group1 group2)
      (sorted1 : Ascending (items group1.list)) (sorted2 : Ascending (items group2.list)) where
    -- For references to two known groups in ascending order and of one known context, with enough
    -- random numbers: PWR_GrpUnion, PWR_GrpIntersection, PWR_GrpDifference and
    -- PWR_GrpSymDifference each return success with a reference, in the same context, to a new
    -- group in ascending order that has the members that the operation names, and leave every other
    -- group as it was.
    pub set_operations-Combines :
        Combines w r1
          (pwr_grp_union g h w r1 r2)
          (λ a. contains (items group1.list) a || contains (items group2.list) a)
        × Combines w r1
            (pwr_grp_intersection g h w r1 r2)
            (λ a. contains (items group1.list) a && contains (items group2.list) a)
        × Combines w r1
            (pwr_grp_difference g h w r1 r2)
            (λ a. contains (items group1.list) a && not (contains (items group2.list) a))
        × Combines w r1
            (pwr_grp_sym_difference g h w r1 r2)
            (λ a. xor (contains (items group1.list) a) (contains (items group2.list) a))
    unfolding pwr_grp_union pwr_grp_intersection pwr_grp_difference pwr_grp_sym_difference
    set_operations-Combines =
        let (u, u_built, u_sorted, u_members) =
          union_members g group1.list group2.list g.new sorted1 sorted2 items-new in
        let (i, i_built, i_sorted, i_members) =
          intersection_members g group1.list group2.list g.new sorted1 sorted2 items-new in
        let (d, d_built, d_sorted, d_members) =
          difference_members g group1.list group2.list g.new sorted1 sorted2 items-new in
        let (s, s_built, s_sorted, s_members) =
          sym_difference_members g group1.list group2.list g.new sorted1 sorted2 items-new in
        (
          (
            u,
            combine-Makes (group_union g) w ctx r1 r2 a1 a2 group1 group2 u operands u_built,
            u_sorted,
            u_members,
          ),
          (
            i,
            combine-Makes (group_intersection g) w ctx r1 r2 a1 a2 group1 group2 i operands i_built,
            i_sorted,
            i_members,
          ),
          (
            d,
            combine-Makes (group_difference g) w ctx r1 r2 a1 a2 group1 group2 d operands d_built,
            d_sorted,
            d_members,
          ),
          (
            s,
            combine-Makes (group_sym_difference g) w ctx r1 r2 a1 a2 group1 group2 s operands
                s_built,
            s_sorted,
            s_members,
          ),
        )
