-- ===== src/Group/Created.antt =====
-- lib/group.c: PWR_GrpCreate gives a reference to a new, empty group.
use cray_pwrapi.Base.{
  ℕ, ◌^◌, ◌<◌, ◌≡◌, refl, sym, ap, ◌∙◌, [], true, some, pos, length, ◌==◌, arith, ret,
}
use cray_pwrapi.Types.{ret_success}
use cray_pwrapi.Glib.Sequence.{Sequence}
use cray_pwrapi.Glib.HashTable.{HashTable}
use cray_pwrapi.Opaque.Key.{
  opaque_generate, opaque_get_context_key, opaque_get_data_key, generate-get,
}
use cray_pwrapi.Opaque.Map.{opaque_group, OpaqueRef, opaque_map_lookup_type}
use cray_pwrapi.Group.Ops.{live, Group, group_get_length}
use cray_pwrapi.Group.Api.{World, pwr_grp_create}
use cray_pwrapi.Group.Calls.{pwr_grp_get_num_objs}
use cray_pwrapi.Group.References.{
  IsKnown, IsContext, HasRoom, group_at-some, find_group-IsKnown, context_new_group-IsNew,
}

module _ (g : Sequence) (h : HashTable ℕ ℕ) where
  open g use {Seq, items, get_length, get_length_lem, items-new}

  pub num_objs-IsKnown :
      (w : World g h) (r a : ℕ) (group : Group g)
      → IsKnown g h w r a group
      → pwr_grp_get_num_objs g h w r ≡ ret (pos (get_length group.list))
  unfolding pwr_grp_get_num_objs group_get_length
  num_objs-IsKnown w r a group k =
      rw (find_group-IsKnown g h w r a group k, pwr_grp_get_num_objs)
        (rw (group_at-some g h w a group k.here) refl)

  abbrev pub fresh : ℕ → Seq → Group g
  fresh context_key list = record { context_key = context_key; list = list; stat_list = live [] }

  pub reference-IsKnown :
      (w : World g h) (a ctx_key key : ℕ) (group : Group g)
      → ctx_key < 2 ^ 32
      → key < 2 ^ 32
      → opaque_map_lookup_type h (some w.map) key opaque_group ≡ some a
      → w.groups a ≡ some group
      → group.context_key ≡ ctx_key
      → (w.map.refs a).key ≡ key
      → IsKnown g h w (opaque_generate ctx_key key) a group
  reference-IsKnown w a ctx_key key group ctx_small small finds here context keeps =
      let (fits, ctx_back, key_back) = generate-get ctx_key key ctx_small small in
      record {
        finds = ap (λ k. opaque_map_lookup_type h (some w.map) k opaque_group) key_back ∙ finds;
        here = here;
        same_context = ctx_back ∙ sym context;
        keeps_key = keeps ∙ sym key_back;
      }

  -- For a known context, a context reference whose two keys are the key of the context, and enough
  -- random numbers, PWR_GrpCreate succeeds: it gives a reference, in the same context, to a new
  -- group of its own, and PWR_GrpGetNumObjs of this reference is 0.
  pub create_empty :
      (w : World g h) (c ctx : ℕ)
      → opaque_get_context_key c ≡ opaque_get_data_key c
      → IsContext g h w (opaque_get_context_key c) ctx
      → HasRoom g h w ctx
      → (w' : World g h) × (r : ℕ) × (pwr_grp_create g h w c ≡ ret (ret_success, some r, w'))
        × IsKnown g h w' r w.next (fresh (opaque_get_context_key c) g.new)
        × (pwr_grp_get_num_objs g h w' r ≡ ret (pos 0))
  unfolding pwr_grp_create
  create_empty w c ctx same context room =
      let (w', key, eq, new) = context_new_group-IsNew g h w ctx room in
      let ctx_key = opaque_get_context_key c in
      let known =
        reference-IsKnown w' w.next ctx_key key (fresh ctx_key g.new) context.small new.small
          new.finds (new.made ∙ ap (λ k. some (fresh k g.new)) context.keeps_key) refl
          new.keeps_key in
      let reference : opaque_generate (w'.map.refs ctx).key (w'.map.refs w.next).key
          ≡ opaque_generate ctx_key key =
        ap (λ k. opaque_generate k (w'.map.refs w.next).key)
          (ap (λ (r : OpaqueRef). r.key) new.context_kept ∙ context.keeps_key)
        ∙ ap (λ k. opaque_generate ctx_key k) new.keeps_key in
      let test : (opaque_get_context_key c == opaque_get_data_key c) ≡ true =
        rw same (ground arith) in
      (
        w',
        opaque_generate ctx_key key,
        rw (test, pwr_grp_create)
            (rw context.finds (rw eq (ap (λ r. ret (ret_success, some r, w')) reference))),
        known,
        num_objs-IsKnown w' (opaque_generate ctx_key key) w.next (fresh ctx_key g.new) known
            ∙ ap (λ n. ret (pos n)) (get_length_lem g.new ∙ ap length items-new),
      )
