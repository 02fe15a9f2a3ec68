-- ===== src/Daemon/Worker.antt =====
-- daemon/pwrapi_worker.c: worker_process_item, in the order of its steps, with what it calls of
-- pwrapi_set.c, pwrapi_socket.c and powerapid.c.
use cray_pwrapi.Base.{
  ℕ, ◌+◌, ◌%◌, ◌^◌, [], ◌∷◌, Bool, true, ◌&&◌, Option, none, some, ℤ, ◌==◌, if◌then◌else◌, Outcome,
  ret, fault, ◌>>=◌, update, same,
}
use cray_pwrapi.Types.{ret_success, ret_failure}
use cray_pwrapi.Daemon.Request.{FilePath, SetInfo, attr_value_comp}
use cray_pwrapi.Daemon.FileIo.{read_attr_value, write_attr_value}
use cray_pwrapi.Daemon.State.{
  Env, Socket, State, is_rm, changes_at, insert_default, remove_default, insert_mine, remove_mine,
}

module _ (e : Env) where
  open e use {sets, doubles, files}

  -- A read through a pointer to a socket, which is undefined once the socket is freed.
  unfoldable pub socket_at : State e → ℕ → Outcome (Socket e)
  socket_at st a = elim (st.sockets a) [ none ↦ fault | some sock ↦ ret sock ]

  -- A NULL socket is persistent too; the worker never asks about one.
  unfoldable pub is_persistent : Option (Socket e) → Bool
  is_persistent none = true
  is_persistent (some sock) = sock.uid == 0 && is_rm sock.role

  -- The response is counted whether or not the write to the socket succeeds.
  unfoldable pub send_response : State e → ℕ → ℤ → Outcome (State e)
  send_response st a retval = do
    sock ← socket_at st a
    ret (record st {
      sockets = update st.sockets a (some (record sock { seqnum = (sock.seqnum + 1) % 2 ^ 64 }));
      sent = record { to = sock.sockid; retval = retval; sequence = sock.seqnum } ∷ st.sent;
    })

  unfoldable pub set_create_item : State e → SetInfo → Option ℕ → SetInfo × State e
  set_create_item st req skinfo = (
    record req { ident = st.next; skinfo = skinfo; timestamp = 0 },
    record st { next = st.next + 1 },
  )

  -- A default for a path that has none: what a persistent client asks for, else what the control
  -- file holds. `none` is a failure to read it.
  unfoldable pub new_default : State e → Bool → SetInfo → ℕ → Option (State e)
  new_default st persist newset time =
      let (defset, st') = set_create_item st newset none in
      let value = if persist then some newset.value else read_attr_value files st.fs defset in
      elim value [
        | none ↦ none
        | some v ↦ some (insert_default e st' (record defset { value = v; timestamp = time }))
      ]

  -- A persistent client replaces the default.
  unfoldable pub change_default : State e → SetInfo → Bool → SetInfo → ℕ → State e
  change_default st defset persist newset time =
      if persist
      then insert_default e (remove_default e st defset)
          (record defset { value = newset.value; timestamp = time })
      else st

  unfoldable pub set_default : State e → Bool → SetInfo → ℕ → Option (State e)
  set_default st persist newset time = elim (sets.lookup st.def_values newset.path) [
    | none ↦ new_default st persist newset time
    | some defset ↦ some (change_default st defset persist newset time)
  ]

  -- The change that the same socket made before is dropped.
  unfoldable pub drop_old : State e → ℕ → Socket e → FilePath → State e
  drop_old st a sock path = elim (sets.lookup sock.my_changes path) [
    | none ↦ st
    | some oldset ↦ remove_mine e st a sock oldset
  ]

  -- The request is written to its control file if nothing ranks above it.
  unfoldable pub apply_change : State e → SetInfo → Outcome (ℤ × State e)
  apply_change st newset = elim (changes_at e st newset.path) [
    | [] ↦ fault
    | top ∷ rest ↦ elim (attr_value_comp doubles newset top) [
      | same ↦
          let (fs', ok) = write_attr_value files st.fs newset in
          ret (if ok then ret_success else ret_failure, record st { fs = fs' })
      | _ ↦ ret (ret_success, st)
    ]
  ]

  -- What follows once the path has a default.
  unfoldable pub make_change : State e → ℕ → SetInfo → ℕ → Outcome (State e)
  make_change st a newset time = do
    sock ← socket_at st a
    let st1 = drop_old st a sock newset.path
    sock1 ← socket_at st1 a
    let stamped = record newset { timestamp = time }
    (retval, st2) ← apply_change (insert_mine e st1 a sock1 stamped) stamped
    send_response st2 a retval

  -- `a` is the address in `newset->skinfo`; the times are two readings of the clock.
  unfoldable pub worker_process_item : State e → ℕ → SetInfo → ℕ → ℕ → Outcome (State e)
  worker_process_item st a newset time1 time2 = do
    sock ← socket_at st a
    elim (set_default st (is_persistent (some sock)) newset time1) [
      | none ↦ send_response st a ret_failure
      | some st' ↦ make_change st' a newset time2
    ]
