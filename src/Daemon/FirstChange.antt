-- ===== src/Daemon/FirstChange.antt =====
-- daemon/pwrapi_worker.c: worker_process_item for a socket that has not yet changed the attribute.
use cray_pwrapi.Base.{
  ℕ, ◌+◌, ◌%◌, ◌^◌, ◌≡◌, refl, List, [], ◌∷◌, ◌++◌, Bool, true, false, none, some, ◌∙◌, ◌⊎◌, inl,
  inr, Outcome, ret, update, ◌>>=◌, update_self, ap, sym,
}
use cray_pwrapi.Types.{AttrName, data_uint64, ret_success, ret_failure}
use cray_pwrapi.Daemon.Request.{FilePath, SetInfo, attr_value_comp}
use cray_pwrapi.Daemon.Order.{DoubleOrder, lower_first, IsRanked}
use cray_pwrapi.Daemon.State.{Env, State, Socket, Response, changes_at, insert_change, insert_mine}
use cray_pwrapi.Daemon.Changes.{IsArbitrated, insert_sorted-IsArbitrated, changes_at-insert_change}
use cray_pwrapi.Daemon.FileIo.{write_attr_value}
use cray_pwrapi.Daemon.Written.{is_plain}
use cray_pwrapi.Daemon.Sync.{holds, InSync, Kept, Applied, apply_inserted}
use cray_pwrapi.Daemon.Worker.{
  socket_at, drop_old, apply_change, make_change, send_response, is_persistent, set_default,
  change_default, worker_process_item,
}

module _ (e : Env) (o : DoubleOrder e.doubles) where
  open e use {lists, changes, sets, doubles, files}

  pub socket_at-some :
      (st : State e) (adr : ℕ) (sock : Socket e)
      → st.sockets adr ≡ some sock
      → socket_at e st adr ≡ ret sock
  unfolding socket_at
  socket_at-some st adr sock h = rw (h, socket_at) refl

  pub set_default_kept :
      (st : State e) (newset defset : SetInfo) (time : ℕ)
      → sets.lookup st.def_values newset.path ≡ some defset
      → set_default e st false newset time ≡ some st
  unfolding set_default change_default
  set_default_kept st newset defset time h = rw (h, set_default) refl

  pub worker_steps :
      (st : State e) (adr : ℕ) (sock : Socket e) (newset : SetInfo) (time1 time2 : ℕ)
      (st' : State e)
      → st.sockets adr ≡ some sock
      → set_default e st (is_persistent e (some sock)) newset time1 ≡ some st'
      → worker_process_item e st adr newset time1 time2 ≡ make_change e st' adr newset time2
  unfolding worker_process_item
  worker_steps st adr sock newset time1 time2 st' here h =
      rw (socket_at-some st adr sock here, worker_process_item) (rw (h, ◌>>=◌) refl)

  drop_old-none :
      (st : State e) (adr : ℕ) (sock : Socket e) (p : FilePath)
      → sets.lookup sock.my_changes p ≡ none
      → drop_old e st adr sock p ≡ st
  unfolding drop_old
  drop_old-none st adr sock p h = rw (h, drop_old) refl

  -- The answer to a request: it goes to the client, under the client's sequence number.
  pub record Answers (before : List (Response e)) (sock : Socket e) (r : Response e) (st' : State e)
      : Type 0 where
    pub sent : st'.sent ≡ r ∷ before
    pub to : r.to ≡ sock.sockid
    pub sequence : r.sequence ≡ sock.seqnum

  module _ (a : AttrName) (up : Bool) (numeric : lower_first a ≡ some up)
      (plain : is_plain a ≡ true) where
    -- The request, stamped with the time, stands among the old requests for the file and under its
    -- path in the table of its socket.
    pub record Entered (old : List SetInfo) (adr : ℕ) (s : SetInfo) (st' : State e) : Type 0 where
      pub front : List SetInfo
      pub back : List SetInfo
      pub before : old ≡ front ++ back
      pub after : changes_at e st' s.path ≡ front ++ s ∷ back
      pub holder : Socket e
      pub socket : st'.sockets adr ≡ some holder
      pub mine : sets.lookup holder.my_changes s.path ≡ some s

    -- The request is processed: it is entered, the requests for the file stay in order, and the
    -- client is answered, with failure, and then the write of the request failed, or with success,
    -- and then the file holds what the first request asks for.
    abbrev pub Serves : State e → List SetInfo → ℕ → Socket e → SetInfo → Outcome (State e) → Type 0
    Serves st old adr sock s result =
        (st' : State e) × (r : Response e) × (result ≡ ret st')
        × Entered old adr s st'
        × IsArbitrated e o a data_uint64 up (changes_at e st' s.path)
        × Answers st.sent sock r st'
        × (((r.retval ≡ ret_failure) × ((write_attr_value files st.fs s).1 ≡ false))
            ⊎ ((r.retval ≡ ret_success) × InSync e o st' s.path))

    -- `st1` is the state once the request stands in the tables.
    finish :
        (st st1 : State e) (old front back : List SetInfo) (adr : ℕ) (sock sock1 : Socket e)
        (s : SetInfo)
        → st1.sockets adr ≡ some sock1
        → sock1.sockid ≡ sock.sockid
        → sock1.seqnum ≡ sock.seqnum
        → st1.sent ≡ st.sent
        → st1.fs ≡ st.fs
        → sets.lookup sock1.my_changes s.path ≡ some s
        → old ≡ front ++ back
        → changes_at e st1 s.path ≡ front ++ s ∷ back
        → IsArbitrated e o a data_uint64 up (changes_at e st1 s.path)
        → Applied e o a up numeric plain st1 s (apply_change e st1 s)
        → Serves st old adr sock s
            (do (retval, st2) ← apply_change e st1 s; send_response e st2 adr retval)
    unfolding send_response socket_at
    finish st st1 old front back adr sock sock1 s hs hid hseq hsent hfs own was now v
          (retval, fs', applied, code) =
        (
          record st1 {
            sockets =
                update st1.sockets adr
                  (some (record sock1 { seqnum = (sock1.seqnum + 1) % 2 ^ 64 }));
            fs = fs';
            sent =
                record { to = sock1.sockid; retval = retval; sequence = sock1.seqnum } ∷ st1.sent;
          },
          record { to = sock1.sockid; retval = retval; sequence = sock1.seqnum },
          rw applied (rw (hs, send_response, socket_at) refl),
          record {
            front = front;
            back = back;
            before = was;
            after = now;
            holder = record sock1 { seqnum = (sock1.seqnum + 1) % 2 ^ 64 };
            socket = update_self st1.sockets adr _;
            mine = own;
          },
          v,
          record { sent = rw hsent refl; to = hid; sequence = hseq },
          (elim code [
            | inl (good, sync) ↦ inr (good, sync)
            | inr (bad, failed) ↦
                inl (bad, ap (λ fs. (write_attr_value files fs s).1) (sym hfs) ∙ failed)
          ]),
        )

    -- No request for the file is there yet, or the file is in sync.
    abbrev pub Current : State e → FilePath → Type 0
    Current st p = (changes_at e st p ≡ []) ⊎ InSync e o st p

    kept :
        (st : State e) (p : FilePath) (front back : List SetInfo)
        → changes_at e st p ≡ front ++ back
        → Current st p
        → Kept e o a up numeric plain st.fs p front
    kept st p [] back h c = tt
    kept st p (f ∷ fs) back h (inl empty) = cc
    kept st p (f ∷ fs) back h (inr (holds top rest eq reads)) = cc

    module _ (st : State e) (adr : ℕ) (sock : Socket e) (newset : SetInfo) (time : ℕ)
        (here : st.sockets adr ≡ some sock) (first : sets.lookup sock.my_changes newset.path ≡ none)
        (ranked : IsRanked o a data_uint64 up newset)
        (arbitrated : IsArbitrated e o a data_uint64 up (changes_at e st newset.path))
        (current : Current st newset.path) where
      stamped : SetInfo
      stamped = record newset { timestamp = time }

      inserted : State e
      unfolding stamped
      inserted = insert_mine e st adr sock stamped

      make_change_steps :
          make_change e st adr newset time
          ≡ (do (retval, st2) ← apply_change e inserted stamped; send_response e st2 adr retval)
      unfolding make_change inserted
      make_change_steps =
          rw (socket_at-some st adr sock here, make_change)
            (rw (drop_old-none st adr sock newset.path first)
              (rw (socket_at-some st adr sock here) refl))

      stamped-IsRanked : IsRanked o a data_uint64 up stamped
      unfolding stamped
      stamped-IsRanked = record {
        same_attribute = ranked.same_attribute;
        same_type = ranked.same_type;
        in_range = ranked.in_range;
      }

      inserted_list :
          changes_at e inserted newset.path
          ≡ lists.insert_sorted (attr_value_comp doubles) (changes_at e st newset.path) stamped
      unfolding inserted insert_mine stamped
      inserted_list =
          changes_at-insert_change e o
            (record st {
              sockets = update st.sockets adr (
                  some
                    (record sock { my_changes = sets.insert sock.my_changes newset.path stamped }));
            })
            stamped

      inserted-IsArbitrated : IsArbitrated e o a data_uint64 up (changes_at e inserted newset.path)
      inserted-IsArbitrated = rw inserted_list (
          insert_sorted-IsArbitrated e o a data_uint64 up (changes_at e st newset.path) stamped
            numeric stamped-IsRanked arbitrated)

      inserted-Applied :
          Applied e o a up numeric plain inserted stamped (apply_change e inserted stamped)
      unfolding inserted insert_mine insert_change stamped
      inserted-Applied =
          let (front, back, parts, result) =
            lists.insert_sorted_parts (attr_value_comp doubles) (changes_at e st newset.path)
              stamped in
          apply_inserted e o a up numeric plain inserted stamped front back
            (rw (← result) (rw (← inserted_list) inserted-IsArbitrated)) stamped-IsRanked
            (inserted_list ∙ result) (kept st newset.path front back parts current)

      pub make_change-Serves :
          Serves st
            (changes_at e st newset.path)
            adr
            sock
            (record newset { timestamp = time })
            (make_change e st adr newset time)
      unfolding inserted insert_mine insert_change stamped
      make_change-Serves =
          let (front, back, parts, result) =
            lists.insert_sorted_parts (attr_value_comp doubles) (changes_at e st newset.path)
              stamped in
          rw make_change_steps (
            finish st inserted (changes_at e st newset.path) front back adr sock
              (record sock { my_changes = sets.insert sock.my_changes newset.path stamped }) stamped
              (update_self st.sockets adr _) refl refl refl refl
              (sets.lookup-insert_self sock.my_changes newset.path stamped) parts
              (inserted_list ∙ result) inserted-IsArbitrated inserted-Applied)
