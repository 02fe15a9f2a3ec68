-- ===== src/Object/Forward.antt =====
-- lib/object.c, forward_attr_set_value: it computes what Object.Flat says.
use cray_pwrapi.Base.{
  ℕ, zero, suc, true, false, List, [], ◌∷◌, ◌++◌, ℤ, pos, negsuc, int_eq, if◌then◌else◌, ◌≡◌, refl,
  All, arith, ap, sym, subst, ◌∙◌, inl, inr, Bool-cases,
}
use cray_pwrapi.Types.{AttrName, attr_os_id, ret_success, ret_not_implemented, ret_read_only}
use cray_pwrapi.Object.Tree.{
  ObjType, obj_node, obj_socket, obj_core, obj_power_plane, obj_mem, obj_ht, object, Children,
  childless, sibling, Machine,
}
use cray_pwrapi.Object.Values.{
  note_status, set_by_type, forward_loop, forward_attr_set_value, node_attr_set_value,
  socket_attr_set_value, core_attr_set_value, pplane_attr_set_value, mem_attr_set_value,
  ht_attr_set_value,
}
use cray_pwrapi.Object.Flat.{
  Say, refused, sets, passed, ignored, say, calls_of, IsNoWarning, verdict, run_calls, calls_below,
}
use cray_pwrapi.Object.Verdict.{
  join, join-nothing, join_assoc, total, total-append, total-IsNoWarning, All-append, verdict-total,
}

-- What the loop holds before a child: the code so far, where a child implements the attribute.
held : ℤ → ℕ → ℤ
held retval zero = ret_not_implemented
held retval (suc implemented) = retval

IsHeld : ℤ → ℕ → Type 0
IsHeld retval zero = retval ≡ ret_success
IsHeld retval (suc implemented) = (int_eq retval ret_not_implemented ≡ false) × IsNoWarning retval

held-IsNoWarning : (r : ℤ) (n : ℕ) → IsHeld r n → IsNoWarning (held r n)
unfolding held IsHeld
held-IsNoWarning r zero h = tt
held-IsNoWarning r (suc n) h = h.1

-- One more child.
held-note :
    (r : ℤ) (n : ℕ) (c : ℤ)
    → IsHeld r n
    → int_eq c ret_not_implemented ≡ false
    → join (held r n) c ≡ note_status r c
unfolding held IsHeld join note_status
held-note r zero (pos c) h k = rw (h) (ground arith)
held-note r zero (negsuc c) h k = rw (h) (ground (arith, k))
held-note r (suc n) (pos c) h k = ground (arith, h.0)
held-note r (suc n) (negsuc c) h k = ground (arith, h.0, k)

note-IsHeld :
    (r : ℤ) (n : ℕ) (c : ℤ)
    → IsHeld r n
    → IsNoWarning c
    → int_eq c ret_not_implemented ≡ false
    → IsHeld (note_status r c) (suc n)
unfolding IsHeld note_status
note-IsHeld r zero (pos zero) h w k = rw (h) (refl, tt)
note-IsHeld r n (pos (suc c)) h w k = elim w [ ]
note-IsHeld r zero (negsuc c) h w k = rw h (ground (arith, k))
note-IsHeld (pos zero) (suc n) (pos zero) h w k = ground arith
note-IsHeld (pos zero) (suc n) (negsuc c) h w k = ground (arith, k)
note-IsHeld (pos (suc r)) (suc n) c h w k = elim h.1 [ ]
note-IsHeld (negsuc r) (suc n) (pos zero) h w k = ground (arith, h.0)
note-IsHeld (negsuc r) (suc n) (negsuc c) h w k = ground (arith, h.0, k)

join-skip : (a c : ℤ) → int_eq c ret_not_implemented ≡ true → join a c ≡ a
unfolding join
join-skip (pos a) (negsuc c) h = ground (arith, h)
join-skip (negsuc a) (negsuc c) h = ground (arith, h)
join-skip a (pos c) h = absurd (cc)

module _ {S : Type 0} (m : Machine S) (ipc : ℕ) (attr : AttrName) (value : ℕ) where
  -- What an object does where its children do `forward`.
  does : Say S → (S → ℤ × S) → ℕ → S → ℤ × S
  does refused forward self s = (ret_read_only, s)
  does (sets set) forward self s = set self ipc value s
  does passed forward self s = forward s
  does ignored forward self s = (ret_not_implemented, s)

  set_by_type-does :
      (type : ObjType) (forward : S → ℤ × S) (self : ℕ) (s : S)
      → set_by_type m ret_not_implemented forward type self ipc attr value s
        ≡ does (say m type attr) forward self s
  unfolding set_by_type node_attr_set_value socket_attr_set_value core_attr_set_value
      pplane_attr_set_value mem_attr_set_value ht_attr_set_value does
  set_by_type-does obj_node forward self s =
      elim attr
        as (λ k.
          set_by_type m ret_not_implemented forward obj_node self ipc k value s
          ≡ does (say m obj_node k) forward self s) [ attr_os_id ↦ refl | _ ↦ refl ]
  set_by_type-does obj_socket forward self s =
      elim attr
        as (λ k.
          set_by_type m ret_not_implemented forward obj_socket self ipc k value s
          ≡ does (say m obj_socket k) forward self s) [ attr_os_id ↦ refl | _ ↦ refl ]
  set_by_type-does obj_core forward self s =
      elim attr
        as (λ k.
          set_by_type m ret_not_implemented forward obj_core self ipc k value s
          ≡ does (say m obj_core k) forward self s) [ attr_os_id ↦ refl | _ ↦ refl ]
  set_by_type-does obj_power_plane forward self s =
      elim attr
        as (λ k.
          set_by_type m ret_not_implemented forward obj_power_plane self ipc k value s
          ≡ does (say m obj_power_plane k) forward self s) [ attr_os_id ↦ refl | _ ↦ refl ]
  set_by_type-does obj_mem forward self s =
      elim attr
        as (λ k.
          set_by_type m ret_not_implemented forward obj_mem self ipc k value s
          ≡ does (say m obj_mem k) forward self s) [ attr_os_id ↦ refl | _ ↦ refl ]
  set_by_type-does obj_ht forward self s =
      elim attr
        as (λ k.
          set_by_type m ret_not_implemented forward obj_ht self ipc k value s
          ≡ does (say m obj_ht k) forward self s) [ attr_os_id ↦ refl | _ ↦ refl ]
  set_by_type-does _ forward self s = refl

run_calls-append :
    {S : Type 0} (xs ys : List (S → ℤ × S)) (s : S)
    → run_calls (xs ++ ys) s ≡ (
      (run_calls xs s).0 ++ (run_calls ys (run_calls xs s).1).0,
      (run_calls ys (run_calls xs s).1).1,
    )
run_calls-append {S} [] ys s = refl
run_calls-append {S} (x ∷ xs) ys s =
    ap (λ (r : List ℤ × S). ((x s).0 ∷ r.0, r.1)) (run_calls-append xs ys (x s).1)

module _ {S : Type 0} (m : Machine S) (ipc : ℕ) (attr : AttrName) (value : ℕ) where
  -- What one child makes of its calls, where `below` are those of its children.
  child_does :
      (says : Say S) (forward : S → ℤ × S) (self : ℕ) (s : S) (below : List (S → ℤ × S))
      → (All IsNoWarning (run_calls below s).0
          → forward s ≡ (total (run_calls below s).0, (run_calls below s).1))
      → All IsNoWarning (run_calls (calls_of m ipc attr value says self below) s).0
      → does m ipc attr value says forward self s ≡ (
        total (run_calls (calls_of m ipc attr value says self below) s).0,
        (run_calls (calls_of m ipc attr value says self below) s).1,
      )
  unfolding does total join
  child_does refused forward self s below h w = refl
  child_does (sets set) forward self s below h w =
      ap (λ (c : ℤ). (c, (set self ipc value s).1)) (sym (join-nothing (set self ipc value s).0))
  child_does passed forward self s below h w = h w
  child_does ignored forward self s below h w = refl

  calls : Children → List (S → ℤ × S)
  calls children = calls_below m ipc attr value children

  -- The rest of the loop after a child that returned `r`.
  round : Children → ℤ → ℕ → ℤ × S → ℤ × S
  round rest retval implemented r =
      let skipped = int_eq r.0 ret_not_implemented in
      forward_loop m rest ipc attr value (if skipped then retval else note_status retval r.0)
        (if skipped then implemented else suc implemented) r.1

  Totals : Children → Type 0
  Totals children =
      (retval : ℤ) (implemented : ℕ) (s : S)
      → IsHeld retval implemented
      → All IsNoWarning (run_calls (calls children) s).0
      → forward_loop m children ipc attr value retval implemented s ≡ (
        join (held retval implemented) (total (run_calls (calls children) s).0),
        (run_calls (calls children) s).1,
      )

  round-total :
      (rest : Children)
      → Totals rest
      → (retval : ℤ) (implemented : ℕ) (r : ℤ × S) → IsHeld retval implemented
      → IsNoWarning r.0
      → All IsNoWarning (run_calls (calls rest) r.1).0
      → round rest retval implemented r ≡ (
        join (join (held retval implemented) r.0) (total (run_calls (calls rest) r.1).0),
        (run_calls (calls rest) r.1).1,
      )
  unfolding round Totals held
  round-total rest ih retval implemented (c, s) h q w =
      elim (Bool-cases (int_eq c ret_not_implemented)) [
        | inl y ↦ rw (y) (
            ih retval implemented s h w
            ∙ ap
                (λ (a : ℤ).
                  (join a (total (run_calls (calls rest) s).0), (run_calls (calls rest) s).1))
                (sym (join-skip (held retval implemented) c y)))
        | inr f ↦ rw (f) (
            ih (note_status retval c) (suc implemented) s (note-IsHeld retval implemented c h q f) w
            ∙ ap
                (λ (a : ℤ).
                  (join a (total (run_calls (calls rest) s).0), (run_calls (calls rest) s).1))
                (sym (held-note retval implemented c h f)))
      ]

  loop-total : (children : Children) → Totals children
  unfolding Totals calls round forward_loop join total held IsHeld
  loop-total childless retval zero s h w = refl
  loop-total childless retval (suc n) s h w = sym (ap (λ (c : ℤ). (c, s)) (join-nothing retval))
  loop-total (sibling (object type self os_id below) rest) retval implemented s h w =
      let mine : List (S → ℤ × S) =
        calls_of m ipc attr value (say m type attr) self (calls_below m ipc attr value below) in
      let A : List ℤ = (run_calls mine s).0 in
      let s1 : S = (run_calls mine s).1 in
      let B : List ℤ = (run_calls (calls_below m ipc attr value rest) s1).0 in
      let both = run_calls-append mine (calls_below m ipc attr value rest) s in
      let quiet : All IsNoWarning (A ++ B) =
        subst (λ (r : List ℤ × S). All IsNoWarning r.0) both w in
      let (quiet_a, quiet_b) = All-append A B quiet in
      let child =
        set_by_type-does m ipc attr value type (forward_loop m below ipc attr value ret_success 0)
          self s
        ∙ child_does (say m type attr) (forward_loop m below ipc attr value ret_success 0) self s
            (calls_below m ipc attr value below) (λ v. loop-total below ret_success 0 s refl v)
            quiet_a in
      let whole : join (join (held retval implemented) (total A)) (total B)
          ≡ join (held retval implemented) (total (A ++ B)) =
        join_assoc (held retval implemented) (total A) (total B)
          (held-IsNoWarning retval implemented h) (total-IsNoWarning A quiet_a)
          (total-IsNoWarning B quiet_b)
        ∙ ap (join (held retval implemented)) (sym (total-append A B quiet)) in
      ap (round rest retval implemented) child
      ∙ round-total rest (loop-total rest) retval implemented (total A, s1) h
          (total-IsNoWarning A quiet_a) quiet_b
      ∙ ap (λ (c : ℤ). (c, (run_calls (calls_below m ipc attr value rest) s1).1)) whole
      ∙ ap (λ (r : List ℤ × S). (join (held retval implemented) (total r.0), r.1)) (sym both)

  -- Where no function that is called returns a warning: forward_attr_set_value on the children of an
  -- object comes to calls on the nearest objects below that set the attribute or say that it is only
  -- read, one after the other in the order of the tree, whatever they return. Its code is that the
  -- attribute is not implemented where no call says otherwise, success where the others succeed, the
  -- error that they agree on, and a plain failure where their errors differ.
  pub forward-verdict :
      (children : Children) (s : S)
      → All IsNoWarning (run_calls (calls_below m ipc attr value children) s).0
      → forward_attr_set_value m children ipc attr value s ≡ (
        verdict (run_calls (calls_below m ipc attr value children) s).0,
        (run_calls (calls_below m ipc attr value children) s).1,
      )
  unfolding forward_attr_set_value Totals calls join held IsHeld
  forward-verdict children s w =
      loop-total children ret_success 0 s refl w
      ∙ ap (λ (c : ℤ). (c, (run_calls (calls_below m ipc attr value children) s).1))
          (sym (verdict-total (run_calls (calls_below m ipc attr value children) s).0 w))
