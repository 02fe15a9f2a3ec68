-- ===== src/Daemon/Sync.antt =====
-- daemon/pwrapi_worker.c: when a control file holds what the request of highest priority asks for.
use cray_pwrapi.Base.{
  sign_of, ℕ, ◌^◌, ◌≤◌, ◌<◌, ◌≡◌, refl, List, [], ◌∷◌, ◌++◌, Bool, true, false, some, arith, ◌≢◌,
  ◌∙◌, ap, ◌⊎◌, inl, inr, same, after, ℤ, Bool-cases, Outcome, ret,
}
use cray_pwrapi.Types.{AttrName, data_uint64, ret_success, ret_failure}
use cray_pwrapi.Glib.SortedList.{LowerThanAll}
use cray_pwrapi.Daemon.Request.{FilePath, SetInfo, attr_value_comp}
use cray_pwrapi.Daemon.Order.{
  DoubleOrder, lower_first, IsRanked, rank, rank_by, attr_value_comp-sign_of,
}
use cray_pwrapi.Daemon.State.{Env, State, changes_in, changes_at}
use cray_pwrapi.Daemon.Changes.{IsArbitrated}
use cray_pwrapi.Daemon.FileIo.{file_read_uint64, write_attr_value}
use cray_pwrapi.Daemon.Written.{is_plain, write_attr_value-Wrote}
use cray_pwrapi.Daemon.Worker.{apply_change}

module _ (e : Env) (o : DoubleOrder e.doubles) where
  open e use {lists, changes, sets, doubles, files}

  -- The file holds the integer that the first request for it asks for.
  pub data Holds (table : changes.Table) (fs : files.FS) (p : FilePath) : Type 0 where
    holds :
        (top : SetInfo) (rest : List SetInfo)
        → changes_in e table p ≡ top ∷ rest
        → file_read_uint64 files fs p ≡ some top.value
        → Holds table fs p

  abbrev pub InSync : State e → FilePath → Type 0
  InSync st p = Holds st.all_changes st.fs p

  pub not-InSync :
      (st : State e) (p : FilePath) (top : SetInfo) (rest : List SetInfo) (v : ℕ)
      → changes_at e st p ≡ top ∷ rest
      → file_read_uint64 files st.fs p ≡ some v
      → v ≢ top.value
      → ¬ InSync st p
  not-InSync st p top rest v eq reads ne (holds top' rest' eq' reads') = ne (cc)

  pub value_eq_of_rank :
      (up : Bool) (v w : ℕ) → v < 2 ^ 64 → w < 2 ^ 64 → rank_by o up v ≡ rank_by o up w → v ≡ w
  value_eq_of_rank true v w p q h = h
  value_eq_of_rank false v w p q h = omega arith

  sign_of_self : (n : ℕ) → sign_of n n ≡ same
  sign_of_self n = ground arith

  pub sign_of_ge : (m n : ℕ) → n ≤ m → (m ≡ n) × (sign_of m n ≡ same) ⊎ (sign_of m n ≡ after)
  sign_of_ge m n h = ground arith

  -- Three ways for a new request `s` to stand to the first one of the list that it is put into.
  module _ (a : AttrName) (up : Bool) (numeric : lower_first a ≡ some up)
      (plain : is_plain a ≡ true) where
    abbrev pub IsOurs : SetInfo → Type 0
    IsOurs = IsRanked o a data_uint64 up

    uint64_range : (s : SetInfo) → IsOurs s → s.value < 2 ^ 64
    uint64_range s r = r.in_range

    -- The call of apply_change after the request was put in: it returns, success and then the file
    -- holds the value of the first request, or failure and then the write of the request failed.
    abbrev pub Applied : State e → SetInfo → Outcome (ℤ × State e) → Type 0
    Applied st s r =
        (retval : ℤ) × (fs' : files.FS) × (r ≡ ret (retval, record st { fs = fs' }))
        × (((retval ≡ ret_success) × InSync (record st { fs = fs' }) s.path)
            ⊎ ((retval ≡ ret_failure) × ((write_attr_value files st.fs s).1 ≡ false)))

    apply_same :
        (st : State e) (s top : SetInfo) (rest : List SetInfo)
        → IsOurs s
        → changes_at e st s.path ≡ top ∷ rest
        → attr_value_comp doubles s top ≡ same
        → s.value ≡ top.value
        → Applied st s (apply_change e st s)
    unfolding apply_change
    apply_same st s top rest r h c v = elim (Bool-cases ok) [
      | inl good ↦ (
        ret_success,
        fs',
        rw (h, apply_change) (rw (c, apply_change) (rw good refl)),
        inl (refl, holds top rest h (wrote (λ i. (fs', good i)))),
      )
      | inr bad ↦ (
        ret_failure,
        fs',
        rw (h, apply_change) (rw (c, apply_change) (rw bad refl)),
        inr (refl, bad),
      )
    ]
      where
        fs' : files.FS
        fs' = (write_attr_value files st.fs s).0

        ok : Bool
        ok = (write_attr_value files st.fs s).1

        wrote :
            write_attr_value files st.fs s ≡ (fs', true)
            → file_read_uint64 files fs' s.path ≡ some top.value
        wrote w =
            (write_attr_value-Wrote files st.fs s fs' (rw r.same_attribute plain) r.same_type
              r.in_range w).reads
            ∙ ap some v

    -- Where something stands before the new request, the file holds what its first one asks for.
    abbrev pub Kept : files.FS → FilePath → List SetInfo → Type 0
    Kept fs p [] = Unit {0}
    Kept fs p (top ∷ rest) = file_read_uint64 files fs p ≡ some top.value

    rank-le-of_front :
        (s : SetInfo) (n : ℕ) (front back : List SetInfo)
        → LowerThanAll (rank o data_uint64 up) n (front ++ s ∷ back)
        → n ≤ rank o data_uint64 up s
    rank-le-of_front s n [] back h = h.0
    rank-le-of_front s n (y ∷ ys) back h = rank-le-of_front s n ys back h.1

    apply_after :
        (st : State e) (s top : SetInfo) (rest : List SetInfo)
        → changes_at e st s.path ≡ top ∷ rest
        → attr_value_comp doubles s top ≡ after
        → apply_change e st s ≡ ret (ret_success, st)
    unfolding apply_change
    apply_after st s top rest h c = rw (h, apply_change) (rw (c, apply_change) refl)

    pub apply_inserted :
        (st : State e) (s : SetInfo) (front back : List SetInfo)
        → IsArbitrated e o a data_uint64 up (front ++ s ∷ back)
        → IsOurs s
        → changes_at e st s.path ≡ front ++ s ∷ back
        → Kept st.fs s.path front
        → Applied st s (apply_change e st s)
    apply_inserted st s [] back v r h k =
        apply_same st s s back r h
          (attr_value_comp-sign_of o a data_uint64 up s s numeric r r
            ∙ sign_of_self (rank o data_uint64 up s))
          refl
    apply_inserted st s (top ∷ rest) back v r h k =
        let comp = attr_value_comp-sign_of o a data_uint64 up s top numeric r v.ranked.0 in
        let le = rank-le-of_front s (rank o data_uint64 up top) rest back v.in_order.0 in
        elim (sign_of_ge (rank o data_uint64 up s) (rank o data_uint64 up top) le) [
          | inl (eq, sign) ↦
              apply_same st s top (rest ++ s ∷ back) r h (comp ∙ sign)
                (value_eq_of_rank up s.value top.value r.in_range (uint64_range top v.ranked.0) eq)
          | inr sign ↦ (
            ret_success,
            st.fs,
            apply_after st s top (rest ++ s ∷ back) h (comp ∙ sign),
            inl (refl, holds top (rest ++ s ∷ back) h k),
          )
        ]
