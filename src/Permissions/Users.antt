-- ===== src/Permissions/Users.antt =====
-- common/permissions.c: the functions as operations on the set of users.
use cray_pwrapi.Base.{
  ℕ, ◌^◌, ◌<◌, ◌≡◌, refl, ap, sym, ◌∙◌, List, [], ◌∷◌, ◌++◌, Bool, true, false, not, ◌&&◌, Option,
  none, some, ℤ, pos, ◌==◌, ==_iff, if◌then◌else◌, contains, contains-append, inl, inr, Bool-cases,
  arith,
}
use mathlib.Core.List.{append-nil}
use cray_pwrapi.Permissions.Scan.{numbers, print_uint}
use cray_pwrapi.Permissions.Files.{
  Files, Access, file_search_uint, check_permissions_file, add_uid_permissions_file,
  del_uid_permissions_file, without_uid, replace_curr, appended,
}
use cray_pwrapi.Permissions.Printed.{print_all, AreUids, numbers-print_all, print_all-append}

-- The current file holds the numbers of users, one to a line.
pub record Holds (f : Files) (uids : List ℕ) : Type 0 where
  pub printed : f.curr ≡ some (print_all uids)
  pub small : AreUids uids

-- The numbers without one of them.
abbrev without : ℕ → List ℕ → List ℕ
without uid [] = []
without uid (x ∷ xs) = let rest = without uid xs in if uid == x then rest else x ∷ rest

without_uid-print : (uid : ℕ) (uids : List ℕ) → without_uid uid uids ≡ print_all (without uid uids)
unfolding without_uid
without_uid-print uid [] = refl
without_uid-print uid (x ∷ xs) = elim (Bool-cases (uid == x)) [
  | inl y ↦ rw y (without_uid-print uid xs)
  | inr n ↦ rw n (ap (λ (rest : List ℕ). print_uint x ++ rest) (without_uid-print uid xs))
]

without-AreUids : (uid : ℕ) (uids : List ℕ) → AreUids uids → AreUids (without uid uids)
without-AreUids uid [] h = tt
without-AreUids uid (x ∷ xs) h = elim (Bool-cases (uid == x)) [
  | inl y ↦ rw y (without-AreUids uid xs h.1)
  | inr n ↦ rw n (h.0, without-AreUids uid xs h.1)
]

contains-without :
    (uid v : ℕ) (uids : List ℕ)
    → contains (without uid uids) v ≡ (not (v == uid) && contains uids v)
contains-without uid v [] = ground arith
contains-without uid v (x ∷ xs) = ground (arith, contains-without uid v xs)

AreUids-append : (xs ys : List ℕ) → AreUids xs → AreUids ys → AreUids (xs ++ ys)
AreUids-append [] ys p q = q
AreUids-append (x ∷ xs) ys p q = (p.0, AreUids-append xs ys p.1 q)

-- The code of a check.
abbrev code_of : Bool → ℤ
code_of found = if found then pos 0 else pos 1

-- A check of `uid` gives what it gave.
unchanged :
    (found : Bool) (uids : List ℕ) (uid v : ℕ) (x : ℤ)
    → contains uids uid ≡ found
    → x ≡ code_of (contains uids v)
    → x ≡ (if v == uid then code_of found else x)
unchanged found uids uid v x h q = elim (Bool-cases (v == uid)) [
  | inl y ↦
      let e : contains uids v ≡ found = ap (λ (w : ℕ). contains uids w) ((==_iff v uid).0 y) ∙ h in
      rw y (q ∙ ap code_of e)
  | inr n ↦ rw n refl
]

granted :
    (uids : List ℕ) (uid v : ℕ) (x : ℤ)
    → x ≡ code_of (contains uids v)
    → code_of (contains (uids ++ uid ∷ []) v) ≡ (if v == uid then pos 0 else x)
granted uids uid v x q = elim (Bool-cases (v == uid)) [
  | inl y ↦ rw (contains-append uids (uid ∷ []) v) (rw y (ground arith))
  | inr n ↦ rw (contains-append uids (uid ∷ []) v) (rw n (ground (arith, q)))
]

withdrawn :
    (uids : List ℕ) (uid v : ℕ) (x : ℤ)
    → x ≡ code_of (contains uids v)
    → code_of (contains (without uid uids) v) ≡ (if v == uid then pos 1 else x)
withdrawn uids uid v x q = elim (Bool-cases (v == uid)) [
  | inl y ↦ rw (contains-without uid v uids) (rw y refl)
  | inr n ↦ rw (contains-without uid v uids) (rw n (sym q))
]

module _ (a : Access) (readable : a.read_curr ≡ true) where
  search_lem :
      (f : Files) (uids : List ℕ) (v : ℕ)
      → Holds f uids
      → file_search_uint a f v ≡ (if contains uids v then pos 0 else pos 1)
  unfolding file_search_uint
  search_lem f uids v h =
      rw (h.printed, file_search_uint) (rw readable (rw (numbers-print_all uids h.small) refl))

  pub check_lem :
      (f : Files) (uids : List ℕ) (v : ℕ)
      → Holds f uids
      → check_permissions_file a f v ≡ (if contains uids v then pos 0 else pos 1)
  unfolding check_permissions_file
  check_lem f uids v h = search_lem f uids v h

  -- After a call that returns 0 the file still holds users, and a check of `uid` gives `code`; of
  -- every other user it gives what it gave before.
  pub record Changes (f : Files) (uid : ℕ) (code : ℤ) (reply : ℤ × Files) : Type 0 where
    pub after : Files
    pub uids' : List ℕ
    pub replies : reply ≡ (pos 0, after)
    pub holds : Holds after uids'
    pub checks :
        (v : ℕ)
        → check_permissions_file a after v
          ≡ (if v == uid then code else check_permissions_file a f v)

  pub add_uid-Changes :
      (f : Files) (uids : List ℕ) (uid : ℕ)
      → Holds f uids
      → uid < 2 ^ 32
      → a.append_curr ≡ true
      → Changes f uid (pos 0) (add_uid_permissions_file a f uid)
  unfolding add_uid_permissions_file
  add_uid-Changes f uids uid h small appends = elim (Bool-cases (contains uids uid)) [
    | inl y ↦ record {
      after = f;
      uids' = uids;
      replies = rw (search_lem f uids uid h, add_uid_permissions_file) (rw y refl);
      holds = h;
      checks =
          λ v. unchanged true uids uid v (check_permissions_file a f v) y (check_lem f uids v h);
    }
    | inr n ↦
        let printed' : appended f.curr (print_uint uid) ≡ print_all (uids ++ uid ∷ []) =
          ap (λ (t : Option (List ℕ)). appended t (print_uint uid)) h.printed
          ∙ ap (λ (line : List ℕ). print_all uids ++ line) (sym (append-nil (print_uint uid)))
          ∙ sym (print_all-append uids (uid ∷ [])) in
        let after : Files = record f { curr = some (appended f.curr (print_uint uid)) } in
        let holds : Holds after (uids ++ uid ∷ []) = record {
          printed = ap some printed';
          small = AreUids-append uids (uid ∷ []) h.small (small, tt);
        } in
        record {
          after = after;
          uids' = uids ++ uid ∷ [];
          replies = rw (search_lem f uids uid h, add_uid_permissions_file) (rw n (rw appends refl));
          holds = holds;
          checks = λ v.
              check_lem after (uids ++ uid ∷ []) v holds
              ∙ granted uids uid v (check_permissions_file a f v) (check_lem f uids v h);
        }
  ]

  pub del_uid-Changes :
      (f : Files) (uids : List ℕ) (uid : ℕ)
      → Holds f uids
      → a.write_temp ≡ true
      → a.remove_curr ≡ true
      → a.rename_temp ≡ true
      → Changes f uid (pos 1) (del_uid_permissions_file a f uid)
  unfolding del_uid_permissions_file replace_curr
  del_uid-Changes f uids uid h writes removes renames = elim (Bool-cases (contains uids uid)) [
    | inr n ↦ record {
      after = f;
      uids' = uids;
      replies = rw (search_lem f uids uid h, del_uid_permissions_file) (rw n refl);
      holds = h;
      checks =
          λ v. unchanged false uids uid v (check_permissions_file a f v) n (check_lem f uids v h);
    }
    | inl y ↦
        let after : Files = record f {
          curr = some (without_uid uid (numbers (print_all uids)));
          temp = none;
        } in
        let holds : Holds after (without uid uids) = record {
          printed =
              ap (λ (xs : List ℕ). some (without_uid uid xs)) (numbers-print_all uids h.small)
              ∙ ap some (without_uid-print uid uids);
          small = without-AreUids uid uids h.small;
        } in
        record {
          after = after;
          uids' = without uid uids;
          replies =
              rw (search_lem f uids uid h, del_uid_permissions_file)
                (rw y (rw h.printed (rw readable (rw writes (rw removes (rw renames refl))))));
          holds = holds;
          checks = λ v.
              check_lem after (without uid uids) v holds
              ∙ withdrawn uids uid v (check_permissions_file a f v) (check_lem f uids v h);
        }
  ]

  -- Where the current file holds one number to a line and the system permits what the functions do:
  -- adding a user and deleting a user each return 0 and leave such a file. A check of every other
  -- user gives afterwards what it gave before; the check of a user who was added gives 0, that of
  -- one who was deleted gives 1.
  pub add_del-Changes :
      (f : Files) (uids : List ℕ) (uid : ℕ)
      → Holds f uids
      → uid < 2 ^ 32
      → a.append_curr ≡ true
      → a.write_temp ≡ true
      → a.remove_curr ≡ true
      → a.rename_temp ≡ true
      → Changes f uid (pos 0) (add_uid_permissions_file a f uid)
        × Changes f uid (pos 1) (del_uid_permissions_file a f uid)
  add_del-Changes f uids uid h small appends writes removes renames = (
    add_uid-Changes f uids uid h small appends,
    del_uid-Changes f uids uid h writes removes renames,
  )
