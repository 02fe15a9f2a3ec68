-- ===== src/Daemon/Ordered.antt =====
-- daemon/pwrapi_set.c and pwrapi_worker.c: all requests that the daemon holds are for the attribute of
-- their control file, and the requests for every control file are in order.
use cray_pwrapi.Base.{
  ℕ, ◌+◌, ◌^◌, ◌<◌, ◌≡◌, refl, sym, ap, subst, ◌∙◌, List, Bool, true, false, Option, none, some,
  inl, inr, Option-cases, Outcome, ret, fault, ◌>>=◌, All, ℕ_discrete,
}
use cray_pwrapi.Types.{AttrName, data_uint64}
use cray_pwrapi.Daemon.Request.{FilePath, SetInfo}
use cray_pwrapi.Daemon.Order.{DoubleOrder, lower_first, IsRanked}
use cray_pwrapi.Daemon.State.{
  Env, State, changes_in, changes_at, insert_change, remove_change, insert_default, remove_default,
}
use cray_pwrapi.Daemon.Changes.{
  IsArbitrated, insert_sorted-IsArbitrated, remove-IsArbitrated, changes_at-insert_change,
  changes_at-insert_change_ne, changes_at-remove_change, changes_at-remove_change_ne,
}
use cray_pwrapi.Daemon.FileIo.{read_attr_value}
use cray_pwrapi.Daemon.Written.{is_plain, read_attr_value_plain, file_read_uint64_lt}
use cray_pwrapi.Daemon.Worker.{set_default, new_default, change_default, set_create_item}

path_decide : Discrete FilePath
path_decide = hlevel ℕ_discrete

-- What holds of the result of a call that ends.
abbrev pub OnRet : {A : Type 0} → (A → Type 0) → Outcome A → Type 0
OnRet P (ret a) = P a
OnRet P fault = Unit {0}

pub OnRet-bind :
    {A B : Type 0} (P : B → Type 0) (r : Outcome A) (f : A → Outcome B)
    → OnRet (λ a. OnRet P (f a)) r
    → OnRet P (r >>= f)
OnRet-bind P (ret a) f h = h
OnRet-bind P fault f h = tt

module _ (e : Env) (o : DoubleOrder e.doubles) (attr_of : FilePath → AttrName)
    (up_of : FilePath → Bool) (numeric : (p : FilePath) → lower_first (attr_of p) ≡ some (up_of p))
    (plain : (p : FilePath) → is_plain (attr_of p) ≡ true) where
  open e use {lists, changes, sets, fds, doubles, files}

  -- An integer for the attribute that its control file belongs to.
  abbrev pub IsTyped : SetInfo → Type 0
  IsTyped s = IsRanked o (attr_of s.path) data_uint64 (up_of s.path) s

  -- The requests for every control file are in order, and those in the queue are for the attribute
  -- of their file; so are the defaults, which stand under their path.
  pub record IsGood (table : changes.Table) (queue : List SetInfo) (defs : sets.Table)
      : Type 0 where
    pub arbitrated :
        (p : FilePath) → IsArbitrated e o (attr_of p) data_uint64 (up_of p) (changes_in e table p)
    pub typed : All IsTyped queue
    pub defaults :
        (p : FilePath) (s : SetInfo) → sets.lookup defs p ≡ some s → (s.path ≡ p) × IsTyped s

  abbrev pub Good : State e → Type 0
  Good st = IsGood st.all_changes st.work_queue st.def_values

  insert_change-IsArbitrated :
      (st : State e) (s : SetInfo) (p : FilePath)
      → Good st
      → IsTyped s
      → IsArbitrated e o (attr_of p) data_uint64 (up_of p) (changes_at e (insert_change e st s) p)
  insert_change-IsArbitrated st s p h t = elim (path_decide p s.path) [
    | no ne ↦ rw (changes_at-insert_change_ne e o st s p ne) (h.arbitrated p)
    | yes q ↦
        subst
          (λ p.
            IsArbitrated e o (attr_of p) data_uint64 (up_of p)
              (changes_at e (insert_change e st s) p))
          (sym q)
          (rw (changes_at-insert_change e o st s) (
            insert_sorted-IsArbitrated e o (attr_of s.path) data_uint64 (up_of s.path)
              (changes_at e st s.path) s (numeric s.path) t (h.arbitrated s.path)))
  ]

  remove_change-IsArbitrated :
      (st : State e) (s : SetInfo) (p : FilePath)
      → Good st
      → IsArbitrated e o (attr_of p) data_uint64 (up_of p) (changes_at e (remove_change e st s) p)
  remove_change-IsArbitrated st s p h = elim (path_decide p s.path) [
    | no ne ↦ rw (changes_at-remove_change_ne e o st s p ne) (h.arbitrated p)
    | yes q ↦
        subst
          (λ p.
            IsArbitrated e o (attr_of p) data_uint64 (up_of p)
              (changes_at e (remove_change e st s) p))
          (sym q)
          (rw (changes_at-remove_change e o st s) (
            remove-IsArbitrated e o (attr_of s.path) data_uint64 (up_of s.path)
              (changes_at e st s.path) s (h.arbitrated s.path)))
  ]

  pub insert_change-Good :
      (st : State e) (s : SetInfo) → Good st → IsTyped s → Good (insert_change e st s)
  unfolding insert_change
  insert_change-Good st s h t = record {
    arbitrated = λ p. insert_change-IsArbitrated st s p h t;
    typed = h.typed;
    defaults = h.defaults;
  }

  pub remove_change-Good : (st : State e) (s : SetInfo) → Good st → Good (remove_change e st s)
  unfolding remove_change
  remove_change-Good st s h = record {
    arbitrated = λ p. remove_change-IsArbitrated st s p h;
    typed = h.typed;
    defaults = h.defaults;
  }

  put_default :
      (defs : sets.Table) (s : SetInfo) (p : FilePath) (d : SetInfo)
      → IsTyped s
      → ((d : SetInfo) → sets.lookup defs p ≡ some d → (d.path ≡ p) × IsTyped d)
      → sets.lookup (sets.insert defs s.path s) p ≡ some d
      → (d.path ≡ p) × IsTyped d
  put_default defs s p d t h found = elim (path_decide p s.path) [
    | no ne ↦ h d (sym (sets.lookup-insert_ne defs s.path p s ne) ∙ found)
    | yes q ↦
        let same_set : s ≡ d = some_eq (
          sym (sets.lookup-insert_self defs s.path s)
          ∙ ap (sets.lookup (sets.insert defs s.path s)) (sym q)
          ∙ found) in
        (ap (λ (x : SetInfo). x.path) (sym same_set) ∙ sym q, subst IsTyped same_set t)
  ]
    where
      some_eq : {a b : SetInfo} → some a ≡ some b → a ≡ b
      some_eq {a} {b} h = cc

  insert_default-Good :
      (st : State e) (s : SetInfo) → Good st → IsTyped s → Good (insert_default e st s)
  unfolding insert_default insert_change
  insert_default-Good st s h t = record {
    arbitrated = λ p. insert_change-IsArbitrated st s p h t;
    typed = h.typed;
    defaults = λ p d. put_default st.def_values s p d t (h.defaults p);
  }

  remove_default-Good : (st : State e) (s : SetInfo) → Good st → Good (remove_default e st s)
  unfolding remove_default remove_change
  remove_default-Good st s h = record {
    arbitrated = λ p. remove_change-IsArbitrated st s p h;
    typed = h.typed;
    defaults = λ p d found. elim (path_decide p s.path) [
      | no ne ↦ h.defaults p d (sym (sets.lookup-remove_ne st.def_values s.path p ne) ∙ found)
      | yes q ↦ cc (
          sym (sets.lookup-remove_self st.def_values s.path)
          ∙ ap (sets.lookup (sets.remove st.def_values s.path)) (sym q)
          ∙ found)
    ];
  }

  retyped :
      (s t : SetInfo)
      → IsTyped s
      → t.attribute ≡ s.attribute
      → t.data_type ≡ s.data_type
      → t.path ≡ s.path
      → t.value < 2 ^ 64
      → IsTyped t
  retyped s t h a d p v = record {
    same_attribute = a ∙ h.same_attribute ∙ ap attr_of (sym p);
    same_type = d ∙ h.same_type;
    in_range = v;
  }

  -- What set_default leaves, if it does not fail.
  abbrev pub Survives : Option (State e) → Type 0
  Survives none = Unit {0}
  Survives (some st) = Good st

  new_default-Good :
      (st : State e) (persist : Bool) (newset : SetInfo) (time : ℕ)
      → Good st
      → IsTyped newset
      → Survives (new_default e st persist newset time)
  unfolding new_default set_create_item
  new_default-Good st true newset time h t =
      insert_default-Good (record st { next = st.next + 1 })
        (record newset { ident = st.next; skinfo = none; timestamp = time }) h
        (retyped newset (record newset { ident = st.next; skinfo = none; timestamp = time }) t refl
          refl refl t.in_range)
  new_default-Good st false newset time h t =
      elim (Option-cases (read_attr_value files st.fs defset)) [
        | inl e ↦ rw (e, new_default) tt
        | inr (v, e) ↦
            rw (e, new_default)
              (insert_default-Good (record st { next = st.next + 1 })
                (record defset { value = v; timestamp = time }) h
                (retyped newset (record defset { value = v; timestamp = time }) t refl refl refl
                  (file_read_uint64_lt files st.fs newset.path v (
                    sym (
                      read_attr_value_plain files st.fs defset
                        (rw t.same_attribute (plain newset.path)) t.same_type)
                    ∙ e))))
      ]
    where
      defset : SetInfo
      defset = record newset { ident = st.next; skinfo = none; timestamp = 0 }

  change_default-Good :
      (st : State e) (defset : SetInfo) (persist : Bool) (newset : SetInfo) (time : ℕ)
      → Good st
      → IsTyped newset
      → IsTyped defset
      → Good (change_default e st defset persist newset time)
  unfolding change_default
  change_default-Good st defset true newset time h t d =
      insert_default-Good (remove_default e st defset)
        (record defset { value = newset.value; timestamp = time }) (remove_default-Good st defset h)
        (retyped defset (record defset { value = newset.value; timestamp = time }) d refl refl refl
          t.in_range)
  change_default-Good st defset false newset time h t d = h

  pub set_default-Good :
      (st : State e) (persist : Bool) (newset : SetInfo) (time : ℕ)
      → Good st
      → IsTyped newset
      → Survives (set_default e st persist newset time)
  unfolding set_default
  set_default-Good st persist newset time h t =
      elim (Option-cases (sets.lookup st.def_values newset.path)) [
        | inl e ↦ rw (e, set_default) (new_default-Good st persist newset time h t)
        | inr (defset, e) ↦
            rw (e, set_default)
              (change_default-Good st defset persist newset time h t
                (h.defaults newset.path defset e).1)
      ]
