-- ===== src/Daemon/Replace.antt =====
-- daemon/pwrapi_worker.c: a client that replaces its own request of highest priority by one that
-- ranks below another request.
use cray_pwrapi.Base.{
  sign_of, ℕ, ◌+◌, ◌%◌, ◌^◌, ◌<◌, ◌≡◌, refl, sym, List, [], ◌∷◌, ◌++◌, Bool, false, some, arith,
  ◌≢◌, ◌∙◌, ap, ret, update, ◌>>=◌, update_self, after,
}
use cray_pwrapi.Types.{AttrName, data_uint64, ret_success}
use cray_pwrapi.Glib.SortedList.{SortedByRank}
use cray_pwrapi.Daemon.Request.{SetInfo, attr_value_comp}
use cray_pwrapi.Daemon.Order.{DoubleOrder, lower_first, IsRanked, rank, attr_value_comp-sign_of}
use cray_pwrapi.Daemon.State.{
  Env, State, Socket, Response, changes_in, changes_at, insert_change, remove_change, insert_mine,
  remove_mine,
}
use cray_pwrapi.Daemon.Changes.{
  IsArbitrated, Ranks-of_All, changes_at-insert_change, changes_at-remove_change,
}
use cray_pwrapi.Daemon.FileIo.{file_read_uint64}
use cray_pwrapi.Daemon.Sync.{InSync, not-InSync}
use cray_pwrapi.Daemon.FirstChange.{socket_at-some, worker_steps, set_default_kept}
use cray_pwrapi.Daemon.Worker.{
  socket_at, make_change, send_response, is_persistent, drop_old, apply_change, worker_process_item,
}

-- The first element of a list stays first where the new one ranks above it.
head_kept :
    (rk : SetInfo → ℕ) (front back : List SetInfo) (x b : SetInfo) (bs : List SetInfo)
    → b ∷ bs ≡ front ++ back
    → SortedByRank rk (front ++ x ∷ back)
    → rk b < rk x
    → (rest : List SetInfo) × (front ++ x ∷ back ≡ b ∷ rest)
head_kept rk [] back x b bs parts order h = absurd (omega (arith, (rw (← parts) at order.0).0))
head_kept rk (f ∷ fs) back x b bs parts order h = (fs ++ x ∷ back, cc)

module _ (e : Env) (o : DoubleOrder e.doubles) where
  open e use {lists, changes, sets, doubles, files}

  sign_of_gt : (m n : ℕ) → n < m → sign_of m n ≡ after
  sign_of_gt m n h = ground arith

  module _ (a : AttrName) (up : Bool) (numeric : lower_first a ≡ some up) (st : State e) (adr : ℕ)
      (sock : Socket e) (newset oldset next_set defset : SetInfo) (others : List SetInfo)
      (time1 time2 : ℕ) (here : st.sockets adr ≡ some sock)
      (transient : is_persistent e (some sock) ≡ false)
      (has_default : sets.lookup st.def_values newset.path ≡ some defset)
      (mine : sets.lookup sock.my_changes newset.path ≡ some oldset)
      (same_path : oldset.path ≡ newset.path) (ranked : IsRanked o a data_uint64 up newset)
      (queue : changes_at e st newset.path ≡ oldset ∷ next_set ∷ others)
      (arbitrated : IsArbitrated e o a data_uint64 up (oldset ∷ next_set ∷ others))
      (below : rank o data_uint64 up next_set < rank o data_uint64 up newset) where
    stamped : SetInfo
    stamped = record newset { timestamp = time2 }

    -- The socket without and with the request.
    sock1 : Socket e
    sock1 = record sock { my_changes = sets.remove sock.my_changes oldset.path }

    dropped : State e
    dropped = remove_mine e st adr sock oldset

    inserted : State e
    unfolding dropped
    inserted = insert_mine e dropped adr sock1 stamped

    dropped_list : changes_at e dropped newset.path ≡ next_set ∷ others
    unfolding dropped remove_mine sock1
    dropped_list =
        ap (changes_in e dropped.all_changes) (sym same_path)
        ∙ changes_at-remove_change e o (record st { sockets = update st.sockets adr (some sock1) })
            oldset
        ∙ ap (λ l. lists.remove l oldset) (ap (changes_in e st.all_changes) same_path ∙ queue)
        ∙ lists.remove_first [] (next_set ∷ others) oldset tt

    inserted_list :
        changes_at e inserted newset.path
        ≡ lists.insert_sorted (attr_value_comp doubles) (next_set ∷ others) stamped
    unfolding inserted insert_mine stamped
    inserted_list =
        changes_at-insert_change e o
          (record dropped {
            sockets = update dropped.sockets adr (
                some
                  (record sock1 { my_changes = sets.insert sock1.my_changes newset.path stamped }));
          })
          stamped
        ∙ ap (λ l. lists.insert_sorted (attr_value_comp doubles) l stamped) dropped_list

    drop_old_some : drop_old e st adr sock newset.path ≡ dropped
    unfolding drop_old dropped
    drop_old_some = rw (mine, drop_old) refl

    make_change_steps :
        make_change e st adr newset time2
        ≡ (do (retval, st2) ← apply_change e inserted stamped; send_response e st2 adr retval)
    unfolding make_change inserted stamped dropped remove_mine remove_change sock1
    make_change_steps =
        rw (socket_at-some e o st adr sock here, make_change)
          (rw (drop_old_some, ◌>>=◌)
            (rw (socket_at-some e o dropped adr sock1 (update_self st.sockets adr (some sock1)))
              refl))

    inserted_sock : (s : Socket e) × (inserted.sockets adr ≡ some s) × (s.sockid ≡ sock.sockid)
    unfolding inserted insert_mine insert_change dropped sock1 stamped
    inserted_sock = (
      record sock1 { my_changes = sets.insert sock1.my_changes newset.path stamped },
      update_self dropped.sockets adr _,
      refl,
    )

    stamped-IsRanked : IsRanked o a data_uint64 up stamped
    unfolding stamped
    stamped-IsRanked = record {
      same_attribute = ranked.same_attribute;
      same_type = ranked.same_type;
      in_range = ranked.in_range;
    }

    stamped_below : rank o data_uint64 up next_set < rank o data_uint64 up stamped
    unfolding stamped
    stamped_below = below

    rest-IsArbitrated : IsArbitrated e o a data_uint64 up (next_set ∷ others)
    rest-IsArbitrated = record { ranked = arbitrated.ranked.1; in_order = arbitrated.in_order.1 }

    -- The request of the other client stays the first one.
    first_stays : (rest : List SetInfo) × (changes_at e inserted newset.path ≡ next_set ∷ rest)
    first_stays =
        let (front, back, parts, result) =
          lists.insert_sorted_parts (attr_value_comp doubles) (next_set ∷ others) stamped in
        let (rest, eq) =
          head_kept (rank o data_uint64 up) front back stamped next_set others parts
            (rw result at (
              lists.insert_sorted_order (attr_value_comp doubles) (rank o data_uint64 up)
                (next_set ∷ others) stamped
                (Ranks-of_All e o a data_uint64 up stamped (next_set ∷ others) numeric
                  stamped-IsRanked rest-IsArbitrated.ranked)
                rest-IsArbitrated.in_order))
            stamped_below in
        (rest, inserted_list ∙ result ∙ eq)

    apply_nothing : apply_change e inserted stamped ≡ ret (ret_success, inserted)
    unfolding apply_change stamped
    apply_nothing =
        let (rest, eq) = first_stays in
        rw (eq, apply_change)
          (rw
            (
              attr_value_comp-sign_of o a data_uint64 up stamped next_set numeric stamped-IsRanked
                    rest-IsArbitrated.ranked.0
                  ∙ sign_of_gt (rank o data_uint64 up stamped) (rank o data_uint64 up next_set)
                      stamped_below,
              apply_change,
            )
            refl)

    -- A client that is not persistent has made the request of highest priority for a control
    -- file, the file holds its value, and it now asks for a value that ranks below the next
    -- request, which asks for another value (an integer, for an attribute other than the
    -- governor; the requests are in order). Then worker_process_item sends success, and the other
    -- request is the first one, but the file still holds the value that nobody asks for any more.
    pub replaced_top_stale :
        file_read_uint64 files st.fs newset.path ≡ some oldset.value
        → oldset.value ≢ next_set.value
        → (st' : State e) × (r : Response e) × (worker_process_item e st adr newset time1 time2
            ≡ ret st')
          × (st'.sent ≡ r ∷ st.sent)
          × (r.to ≡ sock.sockid)
          × (r.retval ≡ ret_success)
          × (file_read_uint64 files st'.fs newset.path ≡ some oldset.value)
          × ((rest : List SetInfo) × (changes_at e st' newset.path ≡ next_set ∷ rest))
          × (¬ InSync e o st' newset.path)
    unfolding send_response socket_at inserted dropped insert_mine remove_mine insert_change
        remove_change
    replaced_top_stale reads differ =
        let (s, hs, hid) = inserted_sock in
        let (rest, eq) = first_stays in
        (
          record inserted {
            sockets =
                update inserted.sockets adr (some (record s { seqnum = (s.seqnum + 1) % 2 ^ 64 }));
            sent = record { to = s.sockid; retval = ret_success; sequence = s.seqnum } ∷ st.sent;
          },
          record { to = s.sockid; retval = ret_success; sequence = s.seqnum },
          worker_steps e o st adr sock newset time1 time2 st here
                (rw transient (set_default_kept e o st newset defset time1 has_default))
              ∙ make_change_steps
              ∙ rw apply_nothing (rw (hs, send_response, socket_at) refl),
          refl,
          hid,
          refl,
          reads,
          (rest, eq),
          not-InSync e o inserted newset.path next_set rest oldset.value eq reads differ,
        )
