-- ===== src/Attribute/Status.antt =====
-- lib/attributes.c and lib/context.c: the status that a caller may pass, a queue of the errors of one
-- call. Where a new key needs more random numbers than are left, the result is `fault`.
use cray_pwrapi.Base.{
  ℕ, ◌+◌, List, [], ◌∷◌, ◌++◌, Bool, true, false, Option, none, some, ℤ, ◌==◌, if◌then◌else◌,
  Outcome, ret, fault, ◌>>=◌, update,
}
use cray_pwrapi.Types.{AttrName, ret_success, ret_failure, ret_empty}
use cray_pwrapi.Glib.Sequence.{Sequence}
use cray_pwrapi.Glib.HashTable.{HashTable}
use cray_pwrapi.Opaque.Key.{opaque_generate, opaque_get_context_key, opaque_get_data_key}
use cray_pwrapi.Opaque.Map.{
  opaque_status, opaque_context, opaque_map_lookup_type, opaque_map_insert, opaque_map_remove,
}
use cray_pwrapi.Group.Api.{World, without_link}
use cray_pwrapi.Object.Tree.{Obj, Machine}

-- PWR_AttrAccessError. An object is a reference, 0 for NULL, or `none` where the caller's variable
-- was never written.
pub record AccessError : Type 0 where
  pub obj : Option ℕ
  pub name : AttrName
  pub index : ℕ
  pub error : ℤ

module _ (g : Sequence) (h : HashTable ℕ ℕ) {S : Type 0} (m : Machine S) where
  -- The memory of the library with that of the hierarchy: the objects, which live as long as their
  -- context, each context's connection to the daemon and its list of statuses, the queue that
  -- `list` of a status points to, and the machine.
  pub record Library : Type 0 where
    pub world : World g h
    pub objects : ℕ → Obj
    pub ipc : ℕ → ℕ
    pub status_list : ℕ → List ℕ
    pub queues : ℕ → Option (List AccessError)
    pub machine : S

  unfoldable pub find_status_by_opaque : Library → ℕ → Option ℕ
  unfolding opaque_get_data_key
  find_status_by_opaque l status =
      opaque_map_lookup_type h (some l.world.map) (opaque_get_data_key status) opaque_status

  unfoldable pub check_status_context : ℕ → ℕ → Bool
  unfolding opaque_get_context_key
  check_status_context status obj_or_grp =
      opaque_get_context_key status == opaque_get_context_key obj_or_grp

  -- The error is lost where malloc fails.
  unfoldable pub push_status_error : Library → Option ℕ → AccessError → Bool × Library
  push_status_error l none e = (true, l)
  push_status_error l (some stat) e = elim (l.queues stat) [
    | none ↦ (true, l)
    | some list ↦
        if m.malloc l.machine
        then (true, record l { queues = update l.queues stat (some (list ++ e ∷ [])) })
        else (false, l)
  ]

  unfoldable pub clear_status : Library → Option ℕ → Library
  clear_status l none = l
  clear_status l (some stat) = elim (l.queues stat) [
    | none ↦ l
    | some list ↦ record l { queues = update l.queues stat (some []) }
  ]

  unfoldable pub new_status : Library → Outcome (ℕ × Library)
  unfolding opaque_map_insert
  new_status l = elim (opaque_map_insert h (some l.world.map) opaque_status l.world.next) [
    | some (key, some map) ↦ ret (
      l.world.next,
      record l {
        world = record l.world { map = map; next = l.world.next + 1 };
        queues = update l.queues l.world.next (some []);
      },
    )
    | _ ↦ fault
  ]

  unfoldable pub del_status : Library → ℕ → Outcome Library
  unfolding opaque_map_remove
  del_status l stat =
      let (removed, map) = opaque_map_remove h (some l.world.map) (l.world.map.refs stat).key in
      elim map [
        | none ↦ fault
        | some map' ↦ ret (record l {
          world = record l.world {
            map = if (l.world.map.refs stat).key == 0 then l.world.map else map';
          };
          queues = update l.queues stat none;
        })
      ]

  unfoldable pub context_new_status : Library → ℕ → Outcome (ℕ × Library)
  unfolding new_status
  context_new_status l ctx = do
    (stat, l1) ← new_status l
    ret (stat, record l1 { status_list = update l1.status_list ctx (stat ∷ l1.status_list ctx) })

  unfoldable pub context_del_status : Library → ℕ → ℕ → Outcome Library
  unfolding del_status
  context_del_status l ctx stat =
      del_status
        (record l {
          status_list = update l.status_list ctx (without_link g h (l.status_list ctx) stat);
        })
        stat

  -- The caller's pointer for the new reference may be NULL.
  unfoldable pub pwr_status_create : Library → ℕ → Bool → Outcome (ℤ × Option ℕ × Library)
  unfolding opaque_get_context_key opaque_get_data_key opaque_generate context_new_status
  pwr_status_create l context false = ret (ret_failure, none, l)
  pwr_status_create l context true =
      let ctx_key = opaque_get_context_key context in
      if ctx_key == opaque_get_data_key context
      then elim (opaque_map_lookup_type h (some l.world.map) ctx_key opaque_context) [
        | none ↦ ret (ret_failure, none, l)
        | some ctx ↦ do
          (stat, l1) ← context_new_status l ctx
          ret (
            ret_success,
            some (opaque_generate (l1.world.map.refs ctx).key (l1.world.map.refs stat).key),
            l1,
          )
      ]
      else ret (ret_failure, none, l)

  unfoldable pub pwr_status_destroy : Library → ℕ → Outcome (ℤ × Library)
  unfolding opaque_get_context_key find_status_by_opaque context_del_status
  pwr_status_destroy l status = elim (find_status_by_opaque l status) [
    | none ↦ ret (ret_failure, l)
    | some stat ↦
        elim (opaque_map_lookup_type h (some l.world.map) (opaque_get_context_key status)
          opaque_context) [
            | none ↦ ret (ret_failure, l)
            | some ctx ↦ do l1 ← context_del_status l ctx stat; ret (ret_success, l1)
          ]
  ]

  -- The code, the error that is copied to the caller if there is one, and the memory.
  unfoldable pub pwr_status_pop_error : Library → ℕ → ℤ × Option AccessError × Library
  unfolding find_status_by_opaque
  pwr_status_pop_error l status = elim (find_status_by_opaque l status) [
    | none ↦ (ret_failure, none, l)
    | some stat ↦ elim (l.queues stat) [
      | none ↦ (ret_failure, none, l)
      | some [] ↦ (ret_empty, none, l)
      | some (e ∷ es) ↦ (ret_success, some e, record l { queues = update l.queues stat (some es) })
    ]
  ]
