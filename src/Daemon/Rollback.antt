-- ===== src/Daemon/Rollback.antt =====
-- daemon/pwrapi_set.c and pwrapi_socket.c: what the end of a connection does to its requests.
use cray_pwrapi.Base.{
  sign_of, ℕ, ◌≤◌, ◌≡◌, refl, subst, List, [], ◌∷◌, ◌++◌, Bool, true, some, arith, ◌∙◌, ap, ◌⊎◌,
  inl, inr, Outcome, ret, All, All-delete, before, same, after,
}
use cray_pwrapi.Types.{AttrName, data_uint64}
use cray_pwrapi.Glib.SortedList.{NotIn, LowerThanAll}
use cray_pwrapi.Daemon.Request.{SetInfo, attr_value_comp}
use cray_pwrapi.Daemon.Order.{DoubleOrder, lower_first, IsRanked, rank, attr_value_comp-sign_of}
use cray_pwrapi.Daemon.State.{Env, State, changes_at, remove_change}
use cray_pwrapi.Daemon.Changes.{IsArbitrated, changes_at-remove_change}
use cray_pwrapi.Daemon.FileIo.{file_read_uint64, write_attr_value}
use cray_pwrapi.Daemon.Written.{is_plain, write_attr_value-Wrote}
use cray_pwrapi.Daemon.Sync.{holds, InSync, value_eq_of_rank, sign_of_ge}
use cray_pwrapi.Daemon.Socket.{set_rollback}

module _ (e : Env) (o : DoubleOrder e.doubles) where
  open e use {lists, changes, sets, doubles, files}

  sign_of_le : (m n : ℕ) → m ≤ n → (m ≡ n) × (sign_of m n ≡ same) ⊎ (sign_of m n ≡ before)
  sign_of_le m n h = ground arith

  module _ (a : AttrName) (up : Bool) (numeric : lower_first a ≡ some up)
      (plain : is_plain a ≡ true) (st : State e) (setp top : SetInfo)
      (front back rest : List SetInfo) (queue : changes_at e st setp.path ≡ front ++ setp ∷ back)
      (once : NotIn setp front) (left : front ++ back ≡ top ∷ rest)
      (same_path : top.path ≡ setp.path)
      (arbitrated : IsArbitrated e o a data_uint64 up (front ++ setp ∷ back)) where
    removed : State e
    removed = remove_change e st setp

    removed_list : changes_at e removed setp.path ≡ top ∷ rest
    unfolding removed
    removed_list =
        changes_at-remove_change e o st setp
        ∙ ap (λ l. lists.remove l setp) queue
        ∙ lists.remove_first front back setp once
        ∙ left

    -- The end of the rollback, by how the removed request compares with the first one left.
    abbrev Restores : Outcome (State e) → Type 0
    Restores result =
        (st' : State e) × (result ≡ ret st')
        × InSync e o st' setp.path
        × (changes_at e st' setp.path ≡ top ∷ rest)

    rolled_back :
        attr_value_comp doubles setp top ≡ before
        → IsRanked o a data_uint64 up top
        → (write_attr_value files st.fs top).1 ≡ true
        → Restores (set_rollback e st setp)
    unfolding set_rollback removed remove_change
    rolled_back c r ok =
        let fs' = (write_attr_value files st.fs top).0 in
        (
          record removed { fs = fs' },
          rw (removed_list, set_rollback) (rw (c, set_rollback) refl),
          holds top rest removed_list (
              rw (← same_path)
                (write_attr_value-Wrote files st.fs top fs' (rw r.same_attribute plain) r.same_type
                  r.in_range (λ i. (fs', ok i))).reads),
          removed_list,
        )

    left_alone :
        (attr_value_comp doubles setp top ≡ same) ⊎ (attr_value_comp doubles setp top ≡ after)
        → file_read_uint64 files st.fs setp.path ≡ some top.value
        → Restores (set_rollback e st setp)
    unfolding set_rollback removed remove_change
    left_alone (inl c) reads = (
      removed,
      rw (removed_list, set_rollback) (rw (c, set_rollback) refl),
      holds top rest removed_list reads,
      removed_list,
    )
    left_alone (inr c) reads = (
      removed,
      rw (removed_list, set_rollback) (rw (c, set_rollback) refl),
      holds top rest removed_list reads,
      removed_list,
    )

-- An element of a list in order that stands before another one ranks at least as high.
first_le :
    (rk : SetInfo → ℕ) (n : ℕ) (l : List SetInfo) (x : SetInfo) (back : List SetInfo)
    → LowerThanAll rk n (l ++ x ∷ back)
    → n ≤ rk x
first_le rk n [] x back h = h.0
first_le rk n (y ∷ ys) x back h = first_le rk n ys x back h.1

IsRanked-mid :
    (e : Env) (o : DoubleOrder e.doubles) (a : AttrName) (up : Bool) (front back : List SetInfo)
    (x : SetInfo)
    → All (IsRanked o a data_uint64 up) (front ++ x ∷ back)
    → IsRanked o a data_uint64 up x
IsRanked-mid e o a up [] back x h = h.0
IsRanked-mid e o a up (y ∷ ys) back x h = IsRanked-mid e o a up ys back x h.1

-- A request is rolled back that stands in the queue of its control file with others, all in order
-- and for one attribute other than the C-state limit and the governor, as integers; the file holds
-- the value of the first of them, and a write of the first one that is left succeeds. Then the
-- rollback runs to its end, the others stay in their order, and the file holds the value of the
-- first of them.
pub rollback_restores :
    (e : Env) (o : DoubleOrder e.doubles) (a : AttrName) (up : Bool)
    → lower_first a ≡ some up
    → is_plain a ≡ true
    → (st : State e) (setp top : SetInfo) (front back rest : List SetInfo)
    → changes_at e st setp.path ≡ front ++ setp ∷ back
    → NotIn setp front
    → front ++ back ≡ top ∷ rest
    → top.path ≡ setp.path
    → IsArbitrated e o a data_uint64 up (front ++ setp ∷ back)
    → InSync e o st setp.path
    → (write_attr_value e.files st.fs top).1 ≡ true
    → (st' : State e) × (set_rollback e st setp ≡ ret st')
      × InSync e o st' setp.path
      × (changes_at e st' setp.path ≡ top ∷ rest)
rollback_restores e o a up numeric plain st setp top [] back rest queue once left path v
      (holds first others eq reads) ok =
    let r = v.ranked.0 in
    let r' =
      (subst (All (IsRanked o a data_uint64 up)) left
        (All-delete (IsRanked o a data_uint64 up) [] back setp v.ranked)).0 in
    let comp = attr_value_comp-sign_of o a data_uint64 up setp top numeric r r' in
    let first_eq : first.value ≡ setp.value = cc in
    elim (sign_of_le e o (rank o data_uint64 up setp) (rank o data_uint64 up top)
      (rw left at v.in_order.0).0) [
        | inl (same_rank, sign) ↦
            left_alone e o a up numeric plain st setp top [] back rest queue once left path v
              (inl (comp ∙ sign))
              (reads
                ∙ ap some (
                    first_eq
                    ∙ value_eq_of_rank e o up setp.value top.value (r.in_range) (r'.in_range)
                        same_rank))
        | inr sign ↦
            rolled_back e o a up numeric plain st setp top [] back rest queue once left path v
              (comp ∙ sign) r' ok
      ]
rollback_restores e o a up numeric plain st setp top (f ∷ fs) back rest queue once left path v
      (holds first others eq reads) ok =
    let r' =
      (subst (All (IsRanked o a data_uint64 up)) left
        (All-delete (IsRanked o a data_uint64 up) (f ∷ fs) back setp v.ranked)).0 in
    let r = IsRanked-mid e o a up fs back setp v.ranked.1 in
    let comp = attr_value_comp-sign_of o a data_uint64 up setp top numeric r r' in
    let top_eq : f ≡ top = cc in
    let first_eq : first.value ≡ top.value = cc in
    elim (sign_of_ge e o (rank o data_uint64 up setp) (rank o data_uint64 up top) (
      rw (← top_eq)
        (first_le (rank o data_uint64 up) (rank o data_uint64 up f) fs setp back v.in_order.0))) [
          | inl (same_rank, sign) ↦
              left_alone e o a up numeric plain st setp top (f ∷ fs) back rest queue once left path
                v (inl (comp ∙ sign)) (reads ∙ ap some first_eq)
          | inr sign ↦
              left_alone e o a up numeric plain st setp top (f ∷ fs) back rest queue once left path
                v (inr (comp ∙ sign)) (reads ∙ ap some first_eq)
        ]
