-- ===== src/Daemon/Gate.antt =====
-- daemon/powerapid.c and pwrapi_socket.c: what a request that is still queued meets when the
-- connection of its client is closed.
use cray_pwrapi.Base.{
  ℕ, ◌+◌, ◌≡◌, refl, sym, List, [], ◌∷◌, ◌++◌, true, none, some, ◌∙◌, ap, before, ret-injective,
  inl, inr, pos, ret, fault, update, ◌>>=◌, update_self, Outcome, subst, ℤ, Sign-cases,
}
use cray_pwrapi.Daemon.Request.{FilePath, SetInfo, attr_value_comp}
use cray_pwrapi.Daemon.State.{Env, State, Socket, changes_at, remove_change}
use cray_pwrapi.Daemon.Ordered.{OnRet}
use cray_pwrapi.Daemon.FileIo.{write_attr_value}
use cray_pwrapi.Daemon.Worker.{socket_at, set_create_item, worker_process_item}
use cray_pwrapi.Daemon.Socket.{
  set_req, is_specified, socket_lookup, process_set, process_message, process_client_req,
  set_rollback, socket_destruct, rollback_all,
}

module _ (e : Env) where
  open e use {sets, fds, doubles, files}

  -- The request as it stands in the queue: under a new address, with the client's socket.
  queued : State e → ℕ → SetInfo → SetInfo
  queued st adr req = record req { ident = st.next; skinfo = some adr; timestamp = 0 }

  Queues : State e → State e → Type 0
  Queues st st' = st'.work_queue ≡ st.work_queue

  -- The top of what is left decides whether the file is written again.
  rewritten :
      (st st1 : State e) (setp : SetInfo) (left : List SetInfo)
      → Queues st st1
      → OnRet (Queues st) (elim left [
        | [] ↦ fault
        | top ∷ rest ↦ elim (attr_value_comp doubles setp top) [
          | before ↦ ret (record st1 { fs = (write_attr_value files st1.fs top).0 })
          | _ ↦ ret st1
        ]
      ])
  unfolding Queues
  rewritten st st1 setp [] h = tt
  rewritten st st1 setp (top ∷ rest) h = elim (Sign-cases (attr_value_comp doubles setp top)) [
    | inl p ↦ rw p h
    | inr (inl p) ↦ rw p h
    | inr (inr p) ↦ rw p h
  ]

  rollback_queue : (st : State e) (setp : SetInfo) → OnRet (Queues st) (set_rollback e st setp)
  unfolding set_rollback Queues remove_change
  rollback_queue st setp =
      rewritten st (remove_change e st setp) setp (changes_at e (remove_change e st setp) setp.path)
        refl

  Queues-trans :
      (st st1 : State e) (r : Outcome (State e))
      → Queues st st1
      → OnRet (Queues st1) r
      → OnRet (Queues st) r
  unfolding Queues
  Queues-trans st st1 fault h k = tt
  Queues-trans st st1 (ret st2) h k = k ∙ h

  after_step :
      (st : State e) (rest : State e → Outcome (State e)) (r : Outcome (State e))
      → OnRet (Queues st) r
      → ((st1 : State e) → OnRet (Queues st1) (rest st1))
      → OnRet (Queues st) (r >>= rest)
  after_step st rest fault h k = tt
  after_step st rest (ret st1) h k = Queues-trans st st1 (rest st1) h (k st1)

  rollback_all_queue :
      (st : State e) (entries : List (FilePath × SetInfo))
      → OnRet (Queues st) (rollback_all e st entries)
  unfolding rollback_all Queues
  rollback_all_queue st [] = refl
  rollback_all_queue st ((path, setp) ∷ rest) =
      after_step st (λ st1. rollback_all e st1 rest) (set_rollback e st setp)
        (rollback_queue st setp) (λ st1. rollback_all_queue st1 rest)

  freed :
      (st : State e) (adr : ℕ) (newset : SetInfo) (time1 time2 : ℕ)
      → st.sockets adr ≡ none
      → worker_process_item e st adr newset time1 time2 ≡ fault
  unfolding worker_process_item socket_at
  freed st adr newset time1 time2 h = rw (h, worker_process_item, socket_at) refl

  -- What a closed connection leaves: the queue as it was, and no socket.
  Closed : State e → ℕ → State e → Type 0
  Closed st adr st' = (st'.work_queue ≡ st.work_queue) × (st'.sockets adr ≡ none)

  freed_socket :
      (st : State e) (adr : ℕ) (r : Outcome (State e))
      → OnRet (Queues st) r
      → OnRet
          (Closed st adr)
          (r >>= λ st'. ret (record st' { sockets = update st'.sockets adr none }))
  unfolding Closed Queues
  freed_socket st adr fault h = tt
  freed_socket st adr (ret st') h = (h, update_self st'.sockets adr none)

  module _ (st : State e) (fd adr : ℕ) (sock : Socket e)
      (known : fds.lookup st.open_sockets fd ≡ some adr) (here : st.sockets adr ≡ some sock) where
    destruct-Closed : OnRet (Closed st adr) (socket_destruct e st fd)
    unfolding socket_destruct socket_lookup socket_at Closed Queues
    destruct-Closed =
        let opened = record st { open_sockets = fds.remove st.open_sockets fd } in
        rw (known, socket_destruct)
          (rw (here, socket_at)
            (freed_socket st adr (rollback_all e opened (sets.entries sock.my_changes))
              (rollback_all_queue opened (sets.entries sock.my_changes))))

    -- The state once the request is queued.
    with_request : SetInfo → State e
    with_request req = record st {
      work_queue = st.work_queue ++ queued st adr req ∷ [];
      next = st.next + 1;
    }

    queue_request :
        (req : SetInfo)
        → is_specified sock.role ≡ true
        → process_client_req e st fd (some (set_req req)) ≡ ret (pos 0, with_request req)
    unfolding process_client_req socket_lookup socket_at process_message process_set set_create_item
        queued with_request
    queue_request req s =
        rw (known, process_client_req) (rw (here, socket_at) (rw (s, process_set) refl))

  -- A known client that has authenticated itself sends a set request, and its connection is closed
  -- to the end before a worker takes the request. Then the request is still queued, behind the
  -- requests that were queued before and with the address of the client's socket, and the worker
  -- that takes it reads the freed socket, whatever the request is.
  pub closed_request_faults :
      (st st1 st2 : State e) (fd adr : ℕ) (sock : Socket e) (req : SetInfo) (time1 time2 : ℕ)
      → fds.lookup st.open_sockets fd ≡ some adr
      → st.sockets adr ≡ some sock
      → is_specified sock.role ≡ true
      → process_client_req e st fd (some (set_req req)) ≡ ret (pos 0, st1)
      → socket_destruct e st1 fd ≡ ret st2
      → (item : SetInfo) × (st2.work_queue ≡ st.work_queue ++ item ∷ [])
        × (item.skinfo ≡ some adr)
        × (worker_process_item e st2 adr item time1 time2 ≡ fault)
  unfolding with_request queued Closed
  closed_request_faults st st1 st2 fd adr sock req time1 time2 known here role sent closed =
      let same_state : with_request st fd adr sock known here req ≡ st1 =
        ap (λ (r : ℤ × State e). r.1)
          (ret-injective (sym (queue_request st fd adr sock known here req role) ∙ sent)) in
      let end : OnRet (Closed (with_request st fd adr sock known here req) adr)
          (socket_destruct e (with_request st fd adr sock known here req) fd) =
        destruct-Closed (with_request st fd adr sock known here req) fd adr sock known here in
      let left : Closed (with_request st fd adr sock known here req) adr st2 =
        subst (OnRet (Closed (with_request st fd adr sock known here req) adr))
          (ap (λ (s : State e). socket_destruct e s fd) same_state ∙ closed) end in
      (queued st adr req, left.0, refl, freed st2 adr (queued st adr req) time1 time2 left.1)
