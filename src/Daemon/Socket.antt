-- ===== src/Daemon/Socket.antt =====
-- daemon/pwrapi_socket.c, set_rollback of pwrapi_set.c and process_client_req of powerapid.c: a
-- connection from its start to its end.
use cray_pwrapi.Base.{
  ℕ, ◌+◌, List, [], ◌∷◌, ◌++◌, Bool, true, false, ◌&&◌, Option, none, some, ℤ, pos, ◌==◌,
  if◌then◌else◌, Outcome, ret, fault, ◌>>=◌, update, before,
}
use cray_pwrapi.Types.{Role, role_not_specified, ret_success, ret_invalid, ret_op_no_perm}
use cray_pwrapi.Daemon.Request.{FilePath, SetInfo, attr_value_comp}
use cray_pwrapi.Daemon.FileIo.{write_attr_value}
use cray_pwrapi.Daemon.State.{Env, Socket, State, changes_at, remove_change}
use cray_pwrapi.Daemon.Worker.{socket_at, send_response, set_create_item}

-- A message from a client. The union of a set request is a `SetInfo` whose address, socket and time
-- are not read; `loglvl` says whether the two calls of the logger succeed; `other` is an unknown
-- type.
pub data Message : Type 0 where
  auth : Role → Message
  set_req : SetInfo → Message
  loglvl : Bool → Bool → Message
  dump : Message
  other : Message

abbrev pub is_specified : Role → Bool
is_specified role_not_specified = false
is_specified _ = true

module _ (e : Env) where
  open e use {sets, fds, doubles, files}

  unfoldable pub socket_construct : State e → ℕ → ℕ → State e
  socket_construct st client_socket uid = record st {
    sockets = update st.sockets st.next (
        some (record {
          sockid = client_socket;
          uid = uid;
          role = role_not_specified;
          my_changes = sets.empty;
          seqnum = 0;
        }));
    open_sockets = fds.insert st.open_sockets client_socket st.next;
    next = st.next + 1;
  }

  -- The address of the structure, or NULL.
  unfoldable pub socket_lookup : State e → ℕ → Option ℕ
  socket_lookup st client_socket = fds.lookup st.open_sockets client_socket

  -- The first request that is left is written if the removed one ranked above it. The result of the
  -- write is not looked at.
  unfoldable pub set_rollback : State e → SetInfo → Outcome (State e)
  set_rollback st setp =
      let st1 = remove_change e st setp in
      elim (changes_at e st1 setp.path) [
        | [] ↦ fault
        | top ∷ rest ↦ elim (attr_value_comp doubles setp top) [
          | before ↦ ret (record st1 { fs = (write_attr_value files st1.fs top).0 })
          | _ ↦ ret st1
        ]
      ]

  unfoldable pub rollback_all : State e → List (FilePath × SetInfo) → Outcome (State e)
  rollback_all st [] = ret st
  rollback_all st ((path, setp) ∷ rest) = set_rollback st setp >>= λ st'. rollback_all st' rest

  -- The structure is freed when the changes are rolled back.
  unfoldable pub socket_destruct : State e → ℕ → Outcome (State e)
  socket_destruct st client_socket = elim (socket_lookup st client_socket) [
    | none ↦ ret st
    | some a ↦ do
      sock ← socket_at e st a
      st' ←
          rollback_all (record st { open_sockets = fds.remove st.open_sockets client_socket })
            (sets.entries sock.my_changes)
      ret (record st' { sockets = update st'.sockets a none })
  ]

  unfoldable pub process_auth : State e → ℕ → Socket e → Role → ℤ × State e
  process_auth st a sock role = if is_specified sock.role then (ret_invalid, st) else (
    ret_success,
    record st { sockets = update st.sockets a (some (record sock { role = role })) },
  )

  -- A set request is answered by the worker, unless the client has not authenticated itself.
  unfoldable pub process_set : State e → ℕ → Socket e → SetInfo → Outcome (State e)
  process_set st a sock req =
      if is_specified sock.role
      then (let (setp, st') = set_create_item e st req (some a) in
          ret (record st' { work_queue = st'.work_queue ++ setp ∷ [] }))
      else send_response e st a ret_invalid

  unfoldable pub process_message : State e → ℕ → Socket e → Message → Outcome (State e)
  process_message st a sock (auth role) =
      let (retval, st') = process_auth st a sock role in send_response e st' a retval
  process_message st a sock (set_req req) = process_set st a sock req
  process_message st a sock (loglvl set_ok get_ok) =
      send_response e st a (if set_ok && get_ok then ret_success else ret_invalid)
  process_message st a sock dump =
      send_response e st a (if sock.uid == 0 then ret_success else ret_op_no_perm)
  process_message st a sock other = send_response e st a ret_invalid

  -- `none` for a message that was not read in full. The result is 1 if the connection has to be
  -- closed, else 0.
  unfoldable pub process_client_req : State e → ℕ → Option Message → Outcome (ℤ × State e)
  process_client_req st client_socket none = ret (pos 1, st)
  process_client_req st client_socket (some message) = elim (socket_lookup st client_socket) [
    | none ↦ ret (pos 1, st)
    | some a ↦ do sock ← socket_at e st a; st' ← process_message st a sock message; ret (pos 0, st')
  ]
