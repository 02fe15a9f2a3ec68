-- ===== src/Daemon/Runs.antt =====
-- The daemon as a whole: its main thread (daemon/powerapid.c) and its worker
-- (daemon/pwrapi_worker.c) take turns, one message, one request or one closed connection at a time.
use cray_pwrapi.Base.{
  ℕ, ◌≡◌, sym, ap, subst, ◌∙◌, List, [], ◌∷◌, ◌++◌, Bool, true, none, some, ◌⊎◌, inl, inr, ℤ,
  Bool-cases, Option-cases, ret, update, All,
}
use cray_pwrapi.Types.{AttrName, data_uint64, ret_success, ret_invalid}
use cray_pwrapi.Daemon.Request.{FilePath, SetInfo}
use cray_pwrapi.Daemon.Order.{DoubleOrder, lower_first}
use cray_pwrapi.Daemon.State.{Env, State, Socket, changes_in, changes_at}
use cray_pwrapi.Daemon.Changes.{IsArbitrated}
use cray_pwrapi.Daemon.Written.{is_plain}
use cray_pwrapi.Daemon.Worker.{socket_at, set_create_item, worker_process_item}
use cray_pwrapi.Daemon.Socket.{
  Message, auth, set_req, loglvl, dump, other, is_specified, socket_construct, socket_lookup,
  rollback_all, socket_destruct, process_auth, process_set, process_message, process_client_req,
}
use cray_pwrapi.Daemon.Ordered.{OnRet, OnRet-bind}
use cray_pwrapi.Daemon.Steps.{
  OnRet-ret, Typed, AllGood, Leaves, socket_at-OnRet, send_response-Good, worker-Good,
  rollback_all-Good,
}

module _ (e : Env) where
  -- The runs of the daemon. Only messages that satisfy `allowed` are received; the worker takes the
  -- first request of the queue, with the socket that it names.
  pub data Run (allowed : Message → Type 0) (from : State e) : State e → Type 0 where
    start : Run allowed from from
    accepts :
        {st : State e} (client_socket uid : ℕ)
        → Run allowed from st
        → Run allowed from (socket_construct e st client_socket uid)
    receives :
        {st st' : State e} (client_socket : ℕ) (message : Message) (code : ℤ)
        → Run allowed from st
        → allowed message
        → process_client_req e st client_socket (some message) ≡ ret (code, st')
        → Run allowed from st'
    works :
        {st st' : State e} (item : SetInfo) (rest : List SetInfo) (a time1 time2 : ℕ)
        → Run allowed from st
        → st.work_queue ≡ item ∷ rest
        → item.skinfo ≡ some a
        → worker_process_item e (record st { work_queue = rest }) a item time1 time2 ≡ ret st'
        → Run allowed from st'
    closes :
        {st st' : State e} (client_socket : ℕ)
        → Run allowed from st
        → socket_destruct e st client_socket ≡ ret st'
        → Run allowed from st'

module _ (e : Env) (o : DoubleOrder e.doubles) (attr_of : FilePath → AttrName)
    (up_of : FilePath → Bool) (numeric : (p : FilePath) → lower_first (attr_of p) ≡ some (up_of p))
    (plain : (p : FilePath) → is_plain (attr_of p) ≡ true) where
  open e use {lists, changes, sets, fds, doubles, files}

  -- A set request asks for an integer and for the attribute that its control file belongs to.
  abbrev pub TypedMessage : Message → Type 0
  TypedMessage (set_req req) = Typed e o attr_of up_of numeric plain req
  TypedMessage _ = Unit {0}

  Typed-end :
      (l : List SetInfo) (s : SetInfo)
      → All (Typed e o attr_of up_of numeric plain) l
      → Typed e o attr_of up_of numeric plain s
      → All (Typed e o attr_of up_of numeric plain) (l ++ s ∷ [])
  Typed-end [] s h t = (t, tt)
  Typed-end (x ∷ xs) s h t = (h.0, Typed-end xs s h.1 t)

  process_set-Good :
      (st : State e) (a : ℕ) (sock : Socket e) (req : SetInfo)
      → AllGood e o attr_of up_of numeric plain st
      → Typed e o attr_of up_of numeric plain req
      → Leaves e o attr_of up_of numeric plain (process_set e st a sock req)
  unfolding process_set set_create_item
  process_set-Good st a sock req h t = elim (Bool-cases (is_specified sock.role)) [
    | inr n ↦ rw n (send_response-Good e o attr_of up_of numeric plain st a ret_invalid h)
    | inl y ↦ rw y (record {
      arbitrated = h.arbitrated;
      typed =
          Typed-end st.work_queue (record req { ident = st.next; skinfo = some a; timestamp = 0 })
            h.typed
            (record {
              same_attribute = t.same_attribute;
              same_type = t.same_type;
              in_range = t.in_range;
            });
      defaults = h.defaults;
    })
  ]

  process_message-Good :
      (st : State e) (a : ℕ) (sock : Socket e) (message : Message)
      → AllGood e o attr_of up_of numeric plain st
      → TypedMessage message
      → Leaves e o attr_of up_of numeric plain (process_message e st a sock message)
  unfolding process_message process_auth
  process_message-Good st a sock (auth role) h t = elim (Bool-cases (is_specified sock.role)) [
    | inl y ↦ rw y (send_response-Good e o attr_of up_of numeric plain st a ret_invalid h)
    | inr n ↦ rw n (
        send_response-Good e o attr_of up_of numeric plain
          (record st { sockets = update st.sockets a (some (record sock { role = role })) }) a
          ret_success h)
  ]
  process_message-Good st a sock (set_req req) h t = process_set-Good st a sock req h t
  process_message-Good st a sock (loglvl x y) h t =
      send_response-Good e o attr_of up_of numeric plain st a _ h
  process_message-Good st a sock dump h t =
      send_response-Good e o attr_of up_of numeric plain st a _ h
  process_message-Good st a sock other h t =
      send_response-Good e o attr_of up_of numeric plain st a ret_invalid h

  request-Good :
      (st : State e) (client_socket : ℕ) (message : Message)
      → AllGood e o attr_of up_of numeric plain st
      → TypedMessage message
      → OnRet
          (λ r. AllGood e o attr_of up_of numeric plain r.1)
          (process_client_req e st client_socket (some message))
  unfolding process_client_req socket_lookup
  request-Good st client_socket message h t =
      elim (Option-cases (fds.lookup st.open_sockets client_socket)) [
        | inl n ↦ rw (n, process_client_req) h
        | inr (a, y) ↦
            rw (y, process_client_req)
              (OnRet-bind (λ r. AllGood e o attr_of up_of numeric plain r.1) (socket_at e st a) _
                (socket_at-OnRet e o attr_of up_of numeric plain _ st a (λ sock.
                  OnRet-bind (λ r. AllGood e o attr_of up_of numeric plain r.1)
                    (process_message e st a sock message) _
                    (process_message-Good st a sock message h t))))
      ]

  destruct-Good :
      (st : State e) (client_socket : ℕ)
      → AllGood e o attr_of up_of numeric plain st
      → Leaves e o attr_of up_of numeric plain (socket_destruct e st client_socket)
  unfolding socket_destruct socket_lookup
  destruct-Good st client_socket h =
      elim (Option-cases (fds.lookup st.open_sockets client_socket)) [
        | inl n ↦ rw (n, socket_destruct) h
        | inr (a, y) ↦
            rw (y, socket_destruct)
              (OnRet-bind (AllGood e o attr_of up_of numeric plain) (socket_at e st a) _ (
                socket_at-OnRet e o attr_of up_of numeric plain _ st a (λ sock.
                  OnRet-bind (AllGood e o attr_of up_of numeric plain)
                    (rollback_all e _ (sets.entries sock.my_changes)) _
                    (rollback_all-Good e o attr_of up_of numeric plain
                      (record st { open_sockets = fds.remove st.open_sockets client_socket })
                      (sets.entries sock.my_changes) h))))
      ]

  Run-Good :
      (from st : State e)
      → AllGood e o attr_of up_of numeric plain from
      → Run e TypedMessage from st
      → AllGood e o attr_of up_of numeric plain st
  unfolding socket_construct
  Run-Good from _ h start = h
  Run-Good from _ h (accepts {st = st} client_socket uid r) = Run-Good from st h r
  Run-Good from _ h (receives {st = st} {st' = st'} client_socket message code r t eq) =
      OnRet-ret (λ r. AllGood e o attr_of up_of numeric plain r.1) _ (code, st')
        (request-Good st client_socket message (Run-Good from st h r) t) eq
  Run-Good from _ h (works {st = st} {st' = st'} item rest a time1 time2 r queue mine eq) =
      let k = Run-Good from st h r in
      let typed = subst (All (Typed e o attr_of up_of numeric plain)) queue k.typed in
      OnRet-ret (AllGood e o attr_of up_of numeric plain) _ st'
        (worker-Good e o attr_of up_of numeric plain (record st { work_queue = rest }) a item time1
          time2 (record { arbitrated = k.arbitrated; typed = typed.1; defaults = k.defaults })
          typed.0)
        eq
  Run-Good from _ h (closes {st = st} {st' = st'} client_socket r eq) =
      OnRet-ret (AllGood e o attr_of up_of numeric plain) _ st'
        (destruct-Good st client_socket (Run-Good from st h r)) eq

  nothing_yet :
      (p : FilePath)
      → IsArbitrated e o (attr_of p) data_uint64 (up_of p) (changes_in e changes.empty p)
  unfolding changes_in
  nothing_yet p = rw (changes.lookup-empty p, changes_in) (record { ranked = tt; in_order = tt })

  -- Where every set request that arrives asks for an integer and for the attribute that its control
  -- file belongs to (none of them the C-state limit or the governor): after any sequence of
  -- accepted connections, messages, requests that the worker processes and closed connections, from
  -- empty tables, in any order, the requests for every control file are in the order of their
  -- priority, and the default of a path that has one is for this path and its attribute.
  pub always_in_order :
      (from st : State e) (p : FilePath)
      → from.all_changes ≡ changes.empty
      → from.work_queue ≡ []
      → from.def_values ≡ sets.empty
      → Run e TypedMessage from st
      → IsArbitrated e o (attr_of p) data_uint64 (up_of p) (changes_at e st p)
        × ((sets.lookup st.def_values p ≡ none)
            ⊎ ((defset : SetInfo) × (sets.lookup st.def_values p ≡ some defset)
                × (defset.path ≡ p)
                × Typed e o attr_of up_of numeric plain defset))
  always_in_order from st p no_changes no_queue no_defaults r =
      let k =
        Run-Good from st
          (record {
            arbitrated = λ p. rw no_changes (nothing_yet p);
            typed = rw no_queue tt;
            defaults = λ p d found.
                cc
                  (sym (sets.lookup-empty p) ∙ ap (λ t. sets.lookup t p) (sym no_defaults) ∙ found);
          })
          r in
      (
        k.arbitrated p,
        elim (Option-cases (sets.lookup st.def_values p)) [
          | inl n ↦ inl n
          | inr (defset, y) ↦
              let (there, typed) = k.defaults p defset y in inr (defset, y, there, typed)
        ],
      )
