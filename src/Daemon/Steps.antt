-- ===== src/Daemon/Steps.antt =====
-- daemon/pwrapi_worker.c and pwrapi_set.c: worker_process_item and set_rollback keep the requests for
-- every control file in order.
use cray_pwrapi.Base.{
  ℕ, ◌≡◌, refl, subst, List, [], ◌∷◌, Bool, true, Option, none, some, ◌⊎◌, inl, inr, ℤ,
  Option-cases, Outcome, ret, fault, update, Sign-cases, ret-injective,
}
use cray_pwrapi.Types.{AttrName, ret_failure}
use cray_pwrapi.Daemon.Request.{FilePath, SetInfo, attr_value_comp}
use cray_pwrapi.Daemon.Order.{DoubleOrder, lower_first}
use cray_pwrapi.Daemon.State.{
  Env, State, Socket, changes_at, remove_change, insert_mine, remove_mine,
}
use cray_pwrapi.Daemon.Written.{is_plain}
use cray_pwrapi.Daemon.Worker.{
  socket_at, make_change, send_response, is_persistent, set_default, drop_old, apply_change,
  worker_process_item,
}
use cray_pwrapi.Daemon.Socket.{set_rollback, rollback_all}
use cray_pwrapi.Daemon.Ordered.{
  OnRet, OnRet-bind, IsTyped, Good, insert_change-Good, remove_change-Good, Survives,
  set_default-Good,
}

pub OnRet-map :
    {A : Type 0} (P Q : A → Type 0) (r : Outcome A) → ((a : A) → P a → Q a) → OnRet P r → OnRet Q r
OnRet-map P Q (ret a) f h = f a h
OnRet-map P Q fault f h = tt

pub OnRet-ret : {A : Type 0} (P : A → Type 0) (r : Outcome A) (a : A) → OnRet P r → r ≡ ret a → P a
OnRet-ret P (ret b) a h e = subst P (ret-injective e) h
OnRet-ret P fault a h e = cc

list_cases :
    (l : List SetInfo) → (l ≡ []) ⊎ ((top : SetInfo) × (rest : List SetInfo) × (l ≡ top ∷ rest))
list_cases [] = inl refl
list_cases (x ∷ xs) = inr (x, xs, refl)

module _ (e : Env) (o : DoubleOrder e.doubles) (attr_of : FilePath → AttrName)
    (up_of : FilePath → Bool) (numeric : (p : FilePath) → lower_first (attr_of p) ≡ some (up_of p))
    (plain : (p : FilePath) → is_plain (attr_of p) ≡ true) where
  open e use {lists, changes, sets, fds, doubles, files}

  abbrev pub Typed : SetInfo → Type 0
  Typed s = IsTyped e o attr_of up_of numeric plain s

  abbrev pub AllGood : State e → Type 0
  AllGood st = Good e o attr_of up_of numeric plain st

  -- A call that ends leaves the tables good.
  abbrev pub Leaves : Outcome (State e) → Type 0
  Leaves r = OnRet AllGood r

  pub socket_at-OnRet :
      (P : Socket e → Type 0) (st : State e) (a : ℕ)
      → ((sock : Socket e) → P sock)
      → OnRet P (socket_at e st a)
  unfolding socket_at
  socket_at-OnRet P st a h = elim (Option-cases (st.sockets a)) [
    | inl n ↦ rw (n, socket_at) tt
    | inr (sock, y) ↦ rw (y, socket_at) (h sock)
  ]

  pub send_response-Good :
      (st : State e) (a : ℕ) (code : ℤ) → AllGood st → Leaves (send_response e st a code)
  unfolding send_response
  send_response-Good st a code h =
      OnRet-bind AllGood (socket_at e st a) _ (socket_at-OnRet _ st a (λ sock. h))

  drop_old-Good :
      (st : State e) (a : ℕ) (sock : Socket e) (p : FilePath)
      → AllGood st
      → AllGood (drop_old e st a sock p)
  unfolding drop_old remove_mine
  drop_old-Good st a sock p h = elim (Option-cases (sets.lookup sock.my_changes p)) [
    | inl n ↦ rw (n, drop_old) h
    | inr (oldset, y) ↦
        rw (y, drop_old)
          (remove_change-Good e o attr_of up_of numeric plain
            (record st {
              sockets =
                  update st.sockets a
                    (some (record sock { my_changes = sets.remove sock.my_changes oldset.path }));
            })
            oldset h)
  ]

  apply_change-Good :
      (st : State e) (s : SetInfo) → AllGood st → OnRet (λ r. AllGood r.1) (apply_change e st s)
  unfolding apply_change
  apply_change-Good st s h = elim (list_cases (changes_at e st s.path)) [
    | inl n ↦ rw (n, apply_change) tt
    | inr (top, rest, y) ↦ elim (Sign-cases (attr_value_comp doubles s top)) [
      | inl c ↦ rw (y, apply_change) (rw c h)
      | inr (inl c) ↦ rw (y, apply_change) (rw c h)
      | inr (inr c) ↦ rw (y, apply_change) (rw c h)
    ]
  ]

  make_change-Good :
      (st : State e) (a : ℕ) (newset : SetInfo) (time : ℕ)
      → AllGood st
      → Typed newset
      → Leaves (make_change e st a newset time)
  unfolding make_change insert_mine
  make_change-Good st a newset time h t = OnRet-bind AllGood (socket_at e st a) _ (
      socket_at-OnRet _ st a (λ sock.
        OnRet-bind AllGood (socket_at e (drop_old e st a sock newset.path) a) _ (
          socket_at-OnRet _ (drop_old e st a sock newset.path) a (λ sock1.
            OnRet-bind AllGood
              (apply_change e (insert_mine e (drop_old e st a sock newset.path) a sock1 (stamped))
                stamped)
              _
              (OnRet-map (λ r. AllGood r.1) _ (apply_change e _ stamped)
                (λ r k. send_response-Good r.1 a r.0 k)
                (apply_change-Good _ stamped (
                  insert_change-Good e o attr_of up_of numeric plain _ stamped
                    (drop_old-Good st a sock newset.path h) stamped_typed)))))))
    where
      stamped : SetInfo
      stamped = record newset { timestamp = time }

      stamped_typed : Typed stamped
      stamped_typed = record {
        same_attribute = t.same_attribute;
        same_type = t.same_type;
        in_range = t.in_range;
      }

  pub worker-Good :
      (st : State e) (a : ℕ) (newset : SetInfo) (time1 time2 : ℕ)
      → AllGood st
      → Typed newset
      → Leaves (worker_process_item e st a newset time1 time2)
  unfolding worker_process_item
  worker-Good st a newset time1 time2 h t = OnRet-bind AllGood (socket_at e st a) _ (
      socket_at-OnRet _ st a (λ sock.
        after_default (set_default e st (is_persistent e (some sock)) newset time1) (
          set_default-Good e o attr_of up_of numeric plain st (is_persistent e (some sock)) newset
            time1 h t)))
    where
      after_default :
          (r : Option (State e))
          → Survives e o attr_of up_of numeric plain r
          → Leaves (elim r [
            | none ↦ send_response e st a ret_failure
            | some st' ↦ make_change e st' a newset time2
          ])
      after_default none k = send_response-Good st a ret_failure h
      after_default (some st') k = make_change-Good st' a newset time2 k t

  set_rollback-Good : (st : State e) (s : SetInfo) → AllGood st → Leaves (set_rollback e st s)
  unfolding set_rollback
  set_rollback-Good st s h =
      let k = remove_change-Good e o attr_of up_of numeric plain st s h in
      elim (list_cases (changes_at e (remove_change e st s) s.path)) [
        | inl n ↦ rw (n, set_rollback) tt
        | inr (top, rest, y) ↦ elim (Sign-cases (attr_value_comp doubles s top)) [
          | inl c ↦ rw (y, set_rollback) (rw c k)
          | inr (inl c) ↦ rw (y, set_rollback) (rw c k)
          | inr (inr c) ↦ rw (y, set_rollback) (rw c k)
        ]
      ]

  pub rollback_all-Good :
      (st : State e) (l : List (FilePath × SetInfo)) → AllGood st → Leaves (rollback_all e st l)
  unfolding rollback_all
  rollback_all-Good st [] h = h
  rollback_all-Good st ((p, s) ∷ rest) h =
      OnRet-bind AllGood (set_rollback e st s) (λ st'. rollback_all e st' rest)
        (OnRet-map AllGood (λ st'. Leaves (rollback_all e st' rest)) (set_rollback e st s)
          (λ st' k. rollback_all-Good st' rest k) (set_rollback-Good st s h))
