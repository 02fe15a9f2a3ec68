-- ===== src/Daemon/Client.antt =====
-- daemon/pwrapi_worker.c: the first change of an attribute by a client that is not persistent.
use cray_pwrapi.Base.{
  ℕ, ◌+◌, ◌≡◌, refl, List, [], ◌∷◌, ◌++◌, Bool, true, false, none, some, ◌∙◌, ap, ◌⊎◌, inl, inr,
  subst,
}
use cray_pwrapi.Types.{AttrName, data_uint64}
use cray_pwrapi.Daemon.Request.{FilePath, SetInfo, attr_value_comp}
use cray_pwrapi.Daemon.Order.{DoubleOrder, lower_first, IsRanked}
use cray_pwrapi.Daemon.State.{Env, State, Socket, changes_at, insert_change, insert_default}
use cray_pwrapi.Daemon.Changes.{IsArbitrated, changes_at-insert_change}
use cray_pwrapi.Daemon.FileIo.{file_read_uint64, read_attr_value}
use cray_pwrapi.Daemon.Written.{is_plain, read_attr_value_plain, file_read_uint64_lt}
use cray_pwrapi.Daemon.Sync.{holds, InSync}
use cray_pwrapi.Daemon.FirstChange.{Serves, make_change-Serves, worker_steps, set_default_kept}
use cray_pwrapi.Daemon.Worker.{
  make_change, is_persistent, set_default, new_default, set_create_item, worker_process_item,
}

-- An element put into the empty list stands alone.
alone : (front back : List SetInfo) (x : SetInfo) → [] ≡ front ++ back → front ++ x ∷ back ≡ x ∷ []
alone [] [] x h = refl
alone [] (y ∷ ys) x h = cc
alone (y ∷ ys) back x h = cc

module _ (e : Env) (o : DoubleOrder e.doubles) where
  open e use {lists, changes, sets, doubles, files}

  -- The path has a default and its file is in sync, or it has neither a default nor requests, and
  -- the file can be read.
  abbrev pub Ready : State e → FilePath → Type 0
  Ready st p =
      ((defset : SetInfo) × (sets.lookup st.def_values p ≡ some defset) × InSync e o st p)
      ⊎ ((v : ℕ) × (sets.lookup st.def_values p ≡ none)
          × (changes_at e st p ≡ [])
          × (file_read_uint64 files st.fs p ≡ some v))

  -- What a request is entered among: the requests for the file, or, where there is none, a default
  -- that holds the value of the file.
  abbrev pub Among : State e → FilePath → List SetInfo → Type 0
  Among st p old =
      (old ≡ changes_at e st p)
      ⊎ ((d : SetInfo) × (changes_at e st p ≡ [])
          × (old ≡ d ∷ [])
          × (file_read_uint64 files st.fs p ≡ some d.value))

  module _ (a : AttrName) (up : Bool) (numeric : lower_first a ≡ some up)
      (plain : is_plain a ≡ true) (st : State e) (adr : ℕ) (sock : Socket e) (newset : SetInfo)
      (time1 time2 : ℕ) (here : st.sockets adr ≡ some sock)
      (transient : is_persistent e (some sock) ≡ false)
      (first : sets.lookup sock.my_changes newset.path ≡ none)
      (ranked : IsRanked o a data_uint64 up newset)
      (arbitrated : IsArbitrated e o a data_uint64 up (changes_at e st newset.path)) where
    -- The default that is made of the value in the file.
    read_default : ℕ → SetInfo
    read_default v = record newset { ident = st.next; skinfo = none; value = v; timestamp = time1 }

    with_default : ℕ → State e
    unfolding read_default
    with_default v = insert_default e (record st { next = st.next + 1 }) (read_default v)

    read_default-IsRanked :
        (v : ℕ)
        → file_read_uint64 files st.fs newset.path ≡ some v
        → IsRanked o a data_uint64 up (read_default v)
    unfolding read_default
    read_default-IsRanked v h = record {
      same_attribute = ranked.same_attribute;
      same_type = ranked.same_type;
      in_range = file_read_uint64_lt files st.fs newset.path v h;
    }

    with_default_list :
        (v : ℕ)
        → changes_at e st newset.path ≡ []
        → changes_at e (with_default v) newset.path ≡ read_default v ∷ []
    unfolding with_default insert_default read_default
    with_default_list v h =
        let (front, back, parts, result) =
          lists.insert_sorted_parts (attr_value_comp doubles) [] (read_default v) in
        changes_at-insert_change e o
          (record st {
            next = st.next + 1;
            def_values = sets.insert st.def_values newset.path (read_default v);
          })
          (read_default v)
        ∙ ap (λ l. lists.insert_sorted (attr_value_comp doubles) l (read_default v)) h
        ∙ result
        ∙ alone front back (read_default v) parts

    reads :
        (v : ℕ)
        → file_read_uint64 files st.fs newset.path ≡ some v
        → read_attr_value files st.fs
            (record newset { ident = st.next; skinfo = none; timestamp = 0 })
          ≡ some v
    reads v r =
        read_attr_value_plain files st.fs
          (record newset { ident = st.next; skinfo = none; timestamp = 0 })
          (rw ranked.same_attribute plain) ranked.same_type
        ∙ r

    from_default :
        (v : ℕ)
        → changes_at e st newset.path ≡ []
        → file_read_uint64 files st.fs newset.path ≡ some v
        → Serves e o a up numeric plain st
            (read_default v ∷ [])
            adr
            sock
            (record newset { timestamp = time2 })
            (make_change e (with_default v) adr newset time2)
    unfolding with_default insert_default insert_change read_default
    from_default v empty r =
        subst
          (λ old.
            Serves e o a up numeric plain st old adr sock (record newset { timestamp = time2 })
              (make_change e (with_default v) adr newset time2))
          (with_default_list v empty)
          (make_change-Serves e o a up numeric plain (with_default v) adr sock newset time2 here
            first ranked
            (rw (with_default_list v empty)
              (record { ranked = (read_default-IsRanked v r, tt); in_order = (tt, tt) }))
            (inr (holds (read_default v) [] (with_default_list v empty) r)))

    set_default_read :
        (v : ℕ)
        → sets.lookup st.def_values newset.path ≡ none
        → file_read_uint64 files st.fs newset.path ≡ some v
        → set_default e st false newset time1 ≡ some (with_default v)
    unfolding set_default new_default set_create_item with_default read_default
    set_default_read v h r = rw (h, set_default) (rw (reads v r, new_default) refl)

    -- For the first change that a client which is not persistent makes to an attribute other than
    -- the C-state limit and the governor, as an integer, where the requests for the control file
    -- are in order, and where the path has a default and its file holds the value of the first
    -- request, or it has no default and no request and its file can be read:
    -- worker_process_item runs to its end and enters the request, with its time, among the requests
    -- for the file, or beside a default with the value of the file where there was none. All of
    -- them are in order, and the client's socket holds the request under its path. The client is
    -- sent, under its sequence number, failure, and then the write of the request to the file
    -- failed, or success, and then the file holds the value of the first request.
    pub worker_first_change :
        Ready st newset.path
        → (old : List SetInfo) × Among st newset.path old
          × Serves e o a up numeric plain st old adr sock
              (record newset { timestamp = time2 })
              (worker_process_item e st adr newset time1 time2)
    unfolding read_default
    worker_first_change (inl (defset, has, sync)) = (
      changes_at e st newset.path,
      inl refl,
      rw
          (worker_steps e o st adr sock newset time1 time2 st here
            (rw transient (set_default_kept e o st newset defset time1 has)))
          (make_change-Serves e o a up numeric plain st adr sock newset time2 here first ranked
            arbitrated (inr sync)),
    )
    worker_first_change (inr (v, missing, empty, reads_v)) = (
      read_default v ∷ [],
      inr (read_default v, empty, refl, reads_v),
      rw
          (worker_steps e o st adr sock newset time1 time2 (with_default v) here
            (rw transient (set_default_read v missing reads_v)))
          (from_default v empty reads_v),
    )
