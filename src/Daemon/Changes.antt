-- ===== src/Daemon/Changes.antt =====
-- daemon/pwrapi_set.c: set_insert and set_remove keep the requests for a control file in order.
use cray_pwrapi.Base.{
  ℕ, ◌≡◌, refl, List, [], ◌∷◌, ◌++◌, Bool, some, ◌≢◌, ap, ◌⊎◌, inl, inr, All, All-insert,
  All-delete, ℕ_discrete,
}
use cray_pwrapi.Types.{AttrName, AttrDataType}
use cray_pwrapi.Glib.SortedList.{Ranks, LowerThanAll, SortedByRank, NotIn}
use cray_pwrapi.Daemon.Request.{FilePath, SetInfo, attr_value_comp}
use cray_pwrapi.Daemon.Order.{DoubleOrder, lower_first, IsRanked, rank, attr_value_comp-sign_of}
use cray_pwrapi.Daemon.State.{Env, State, changes_in, changes_at, insert_change, remove_change}

SetInfo-discrete : Discrete SetInfo
SetInfo-discrete = hlevel ℕ_discrete

module _ {A : Type 0} (rk : A → ℕ) where
  LowerThanAll-delete :
      (n : ℕ) (front back : List A) (x : A)
      → LowerThanAll rk n (front ++ x ∷ back)
      → LowerThanAll rk n (front ++ back)
  LowerThanAll-delete n [] back x h = h.1
  LowerThanAll-delete n (y ∷ ys) back x h = (h.0, LowerThanAll-delete n ys back x h.1)

  SortedByRank-delete :
      (front back : List A) (x : A)
      → SortedByRank rk (front ++ x ∷ back)
      → SortedByRank rk (front ++ back)
  SortedByRank-delete [] back x h = h.1
  SortedByRank-delete (y ∷ ys) back x h =
      (LowerThanAll-delete (rk y) ys back x h.0, SortedByRank-delete ys back x h.1)

-- The first occurrence of an element, if there is one.
first_split :
    (l : List SetInfo) (x : SetInfo)
    → NotIn x l
      ⊎ ((front : List SetInfo) × (back : List SetInfo) × (l ≡ front ++ x ∷ back) × NotIn x front)
first_split [] x = inl tt
first_split (y ∷ ys) x = elim (SetInfo-discrete y x) [
  | yes e ↦ inr ([], ys, ap (λ z. z ∷ ys) e, tt)
  | no ne ↦ elim (first_split ys x) [
    | inl h ↦ inl (ne, h)
    | inr (front, back, e, h) ↦ inr (y ∷ front, back, ap (λ l. y ∷ l) e, (ne, h))
  ]
]

module _ (e : Env) (o : DoubleOrder e.doubles) where
  open e use {lists, changes, doubles}

  changes_in_put :
      (table : changes.Table) (p : FilePath) (l : List SetInfo)
      → changes_in e (changes.insert table p l) p ≡ l
  unfolding changes_in
  changes_in_put table p l = rw (changes.lookup-insert_self table p l, changes_in) refl

  changes_in_put_ne :
      (table : changes.Table) (p q : FilePath) (l : List SetInfo)
      → q ≢ p
      → changes_in e (changes.insert table p l) q ≡ changes_in e table q
  unfolding changes_in
  changes_in_put_ne table p q l ne = rw (changes.lookup-insert_ne table p q l ne, changes_in) refl

  pub changes_at-insert_change :
      (st : State e) (s : SetInfo)
      → changes_at e (insert_change e st s) s.path
        ≡ lists.insert_sorted (attr_value_comp doubles) (changes_at e st s.path) s
  unfolding insert_change
  changes_at-insert_change st s = changes_in_put st.all_changes s.path _

  pub changes_at-insert_change_ne :
      (st : State e) (s : SetInfo) (q : FilePath)
      → q ≢ s.path
      → changes_at e (insert_change e st s) q ≡ changes_at e st q
  unfolding insert_change
  changes_at-insert_change_ne st s q ne = changes_in_put_ne st.all_changes s.path q _ ne

  pub changes_at-remove_change :
      (st : State e) (s : SetInfo)
      → changes_at e (remove_change e st s) s.path ≡ lists.remove (changes_at e st s.path) s
  unfolding remove_change
  changes_at-remove_change st s = changes_in_put st.all_changes s.path _

  pub changes_at-remove_change_ne :
      (st : State e) (s : SetInfo) (q : FilePath)
      → q ≢ s.path
      → changes_at e (remove_change e st s) q ≡ changes_at e st q
  unfolding remove_change
  changes_at-remove_change_ne st s q ne = changes_in_put_ne st.all_changes s.path q _ ne

  -- The requests for one file ask for one attribute and stand in the order of their priority.
  module _ (a : AttrName) (t : AttrDataType) (up : Bool) where
    pub record IsArbitrated (l : List SetInfo) : Type 0 where
      pub ranked : All (IsRanked o a t up) l
      pub in_order : SortedByRank (rank o t up) l

    pub Ranks-of_All :
        (s : SetInfo) (l : List SetInfo)
        → lower_first a ≡ some up
        → IsRanked o a t up s
        → All (IsRanked o a t up) l
        → Ranks (attr_value_comp doubles) (rank o t up) s l
    Ranks-of_All s [] h r all = tt
    Ranks-of_All s (x ∷ xs) h r all =
        (attr_value_comp-sign_of o a t up s x h r all.0, Ranks-of_All s xs h r all.1)

    pub insert_sorted-IsArbitrated :
        (l : List SetInfo) (s : SetInfo)
        → lower_first a ≡ some up
        → IsRanked o a t up s
        → IsArbitrated l
        → IsArbitrated (lists.insert_sorted (attr_value_comp doubles) l s)
    insert_sorted-IsArbitrated l s h r v =
        let (front, back, parts, result) =
          lists.insert_sorted_parts (attr_value_comp doubles) l s in
        record {
          ranked =
              rw result (All-insert (IsRanked o a t up) front back s r (rw (← parts) v.ranked));
          in_order =
              lists.insert_sorted_order (attr_value_comp doubles) (rank o t up) l s
                (Ranks-of_All s l h r v.ranked) v.in_order;
        }

    pub remove-IsArbitrated :
        (l : List SetInfo) (s : SetInfo) → IsArbitrated l → IsArbitrated (lists.remove l s)
    remove-IsArbitrated l s v = elim (first_split l s) [
      | inl h ↦ rw (lists.remove_absent l s h) v
      | inr (front, back, e, h) ↦
          rw (e, lists.remove_first front back s h)
            (record {
              ranked = All-delete (IsRanked o a t up) front back s (rw e at v.ranked);
              in_order = SortedByRank-delete (rank o t up) front back s (rw e at v.in_order);
            })
    ]

    -- set_insert and set_remove keep the requests for a control file in the order of their
    -- priority: inserting a request that asks for the same attribute with a value of the same
    -- type, and removing any request.
    pub set_insert_remove-IsArbitrated :
        (st : State e) (s : SetInfo)
        → lower_first a ≡ some up
        → IsRanked o a t up s
        → IsArbitrated (changes_at e st s.path)
        → IsArbitrated (changes_at e (insert_change e st s) s.path)
          × IsArbitrated (changes_at e (remove_change e st s) s.path)
    set_insert_remove-IsArbitrated st s h r v = (
      rw (changes_at-insert_change st s)
          (insert_sorted-IsArbitrated (changes_at e st s.path) s h r v),
      rw (changes_at-remove_change st s) (remove-IsArbitrated (changes_at e st s.path) s v),
    )
