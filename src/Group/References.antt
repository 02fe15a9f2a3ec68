-- ===== src/Group/References.antt =====
-- lib/group.c and lib/context.c: opaque references that stand for a group or a context, and the new
-- group that a context makes.
use cray_pwrapi.Base.{
  ℕ, ◌+◌, ◌^◌, ◌<◌, ◌≡◌, ◌≢◌, refl, ap, ◌∙◌, [], ◌∷◌, true, false, none, some, ◌==◌, arith, All,
  ret, update, update_self, update_ne,
}
use cray_pwrapi.Glib.Sequence.{Sequence}
use cray_pwrapi.Glib.HashTable.{HashTable}
use cray_pwrapi.Opaque.Key.{opaque_get_context_key, opaque_get_data_key}
use cray_pwrapi.Opaque.Map.{opaque_group, opaque_context, opaque_map_lookup_type, opaque_map_insert}
use cray_pwrapi.Opaque.Insert.{HasFree, loop_inserts}
use cray_pwrapi.Opaque.Frame.{loop_frame}
use cray_pwrapi.Group.Ops.{live, Group}
use cray_pwrapi.Group.Api.{World, group_at, find_group_by_opaque, new_group, context_new_group}

module _ (g : Sequence) (h : HashTable ℕ ℕ) where
  -- The reference `r` stands for the group at address `a`.
  pub record IsKnown (w : World g h) (r a : ℕ) (group : Group g) : Type 0 where
    pub finds : opaque_map_lookup_type h (some w.map) (opaque_get_data_key r) opaque_group ≡ some a
    pub here : w.groups a ≡ some group
    pub same_context : opaque_get_context_key r ≡ group.context_key
    pub keeps_key : (w.map.refs a).key ≡ opaque_get_data_key r

  -- The key stands for the context at address `ctx`.
  pub record IsContext (w : World g h) (key ctx : ℕ) : Type 0 where
    pub finds : opaque_map_lookup_type h (some w.map) key opaque_context ≡ some ctx
    pub keeps_key : (w.map.refs ctx).key ≡ key
    pub small : key < 2 ^ 32

  -- The next allocation gives an address without a group or the context, and the random numbers are
  -- of 32 bits and suffice.
  pub record HasRoom (w : World g h) (ctx : ℕ) : Type 0 where
    pub unused : w.groups w.next ≡ none
    pub apart : ctx ≢ w.next
    pub small : All (λ k. k < 2 ^ 32) w.map.rand
    pub free : HasFree h w.map.table w.map.rand

  pub group_at-some :
      (w : World g h) (a : ℕ) (group : Group g)
      → w.groups a ≡ some group
      → group_at g h w a ≡ ret group
  unfolding group_at
  group_at-some w a group e = rw (e, group_at) refl

  pub find_group-IsKnown :
      (w : World g h) (r a : ℕ) (group : Group g)
      → IsKnown w r a group
      → find_group_by_opaque g h w r ≡ ret (some a)
  unfolding find_group_by_opaque
  find_group-IsKnown w r a group k =
      let same : (opaque_get_context_key r == group.context_key) ≡ true =
        rw k.same_context (ground arith) in
      rw (k.finds, find_group_by_opaque) (rw (group_at-some w a group k.here) (rw same refl))

  -- What a context's new group is.
  pub record IsNew (w : World g h) (ctx : ℕ) (w' : World g h) (key : ℕ) : Type 0 where
    pub made :
        w'.groups w.next
        ≡ some (record { context_key = (w.map.refs ctx).key; list = g.new; stat_list = live [] })
    pub finds : opaque_map_lookup_type h (some w'.map) key opaque_group ≡ some w.next
    pub keeps_key : (w'.map.refs w.next).key ≡ key
    pub small : key < 2 ^ 32
    pub context_kept : w'.map.refs ctx ≡ w.map.refs ctx
    pub others : (a : ℕ) → (a == w.next) ≡ false → w'.groups a ≡ w.groups a

  pub context_new_group-IsNew :
      (w : World g h) (ctx : ℕ)
      → HasRoom w ctx
      → (w' : World g h) × (key : ℕ) × (context_new_group g h w ctx ≡ ret (w.next, w'))
        × IsNew w ctx w' key
  unfolding context_new_group new_group opaque_map_insert group_at
  context_new_group-IsNew w ctx room =
      let (key, map', eq, done) = loop_inserts h w.map.rand w.map opaque_group w.next room.free in
      let (kept, small) =
        loop_frame h w.map.rand w.map opaque_group w.next key ctx map' room.small room.apart eq in
      let blank : Group g = record { context_key = 0; list = g.new; stat_list = live [] } in
      let w1 : World g h = record w {
        map = map';
        groups = update w.groups w.next (some blank);
        next = w.next + 1;
      } in
      let made : Group g = record blank { context_key = (map'.refs ctx).key } in
      (
        record w1 {
          groups = update w1.groups w.next (some made);
          group_list = update w1.group_list ctx (w.next ∷ w1.group_list ctx);
        },
        key,
        rw (eq, new_group) (rw (update_self w.groups w.next (some blank), group_at) refl),
        record {
          made =
              update_self w1.groups w.next (some made)
              ∙ ap (λ (r : ℕ). some (record blank { context_key = r })) (ap (λ r. r.key) kept);
          finds = done.found;
          keeps_key = done.keeps_key;
          small = small;
          context_kept = kept;
          others = λ a ne.
              update_ne w1.groups w.next a (some made) ne
              ∙ update_ne w.groups w.next a (some blank) ne;
        },
      )
