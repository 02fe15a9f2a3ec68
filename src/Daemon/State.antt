-- ===== src/Daemon/State.antt =====
-- daemon/powerapid.h, pwrapi_set.c and pwrapi_socket.c: the tables of the daemon, and the
-- insertion and removal of a request.
use cray_pwrapi.Base.{ℕ, List, [], Bool, true, false, Option, none, some, ℤ, update}
use cray_pwrapi.Types.{Role, role_rm}
use cray_pwrapi.Glib.HashTable.{HashTable}
use cray_pwrapi.Glib.SortedList.{SortedList}
use cray_pwrapi.Daemon.Request.{FilePath, Doubles, SetInfo, attr_value_comp}
use cray_pwrapi.Daemon.Files.{Files}

-- What the daemon is built on: GSList and GHashTable, the comparison of doubles, and the C library.
pub record Env : Type 1 where
  pub lists : SortedList SetInfo
  pub changes : HashTable FilePath (List SetInfo)
  pub sets : HashTable FilePath SetInfo
  pub fds : HashTable ℕ ℕ
  pub doubles : Doubles
  pub files : Files

abbrev pub is_rm : Role → Bool
is_rm role_rm = true
is_rm _ = false

module _ (e : Env) where
  open e use {lists, changes, sets, fds, doubles, files}

  -- `socket_info_t`. The name of the context and the time of the connection are only printed.
  pub record Socket : Type 0 where
    pub sockid : ℕ
    pub uid : ℕ
    pub role : Role
    pub my_changes : sets.Table
    pub seqnum : ℕ

  -- A response to a client: socket, return code, sequence number.
  pub record Response : Type 0 where
    pub to : ℕ
    pub retval : ℤ
    pub sequence : ℕ

  -- The global tables. `sockets` is the memory of the `socket_info_t` structures (`none` once
  -- freed), `next` the next address that an allocation returns, `sent` the responses, last first.
  pub record State : Type 0 where
    pub open_sockets : fds.Table
    pub def_values : sets.Table
    pub all_changes : changes.Table
    pub sockets : ℕ → Option Socket
    pub work_queue : List SetInfo
    pub next : ℕ
    pub fs : files.FS
    pub sent : List Response

  -- A missing key and the empty list are both NULL.
  unfoldable pub changes_in : changes.Table → FilePath → List SetInfo
  changes_in table p = elim (changes.lookup table p) [ none ↦ [] | some l ↦ l ]

  abbrev pub changes_at : State → FilePath → List SetInfo
  changes_at st p = changes_in st.all_changes p

  unfoldable pub insert_change : State → SetInfo → State
  insert_change st s = record st {
    all_changes =
        changes.insert st.all_changes s.path
          (lists.insert_sorted (attr_value_comp doubles) (changes_at st s.path) s);
  }

  unfoldable pub remove_change : State → SetInfo → State
  remove_change st s = record st {
    all_changes = changes.insert st.all_changes s.path (lists.remove (changes_at st s.path) s);
  }

  -- set_insert and set_remove with `def_values` as their table.
  unfoldable pub insert_default : State → SetInfo → State
  insert_default st s =
      insert_change (record st { def_values = sets.insert st.def_values s.path s }) s

  unfoldable pub remove_default : State → SetInfo → State
  remove_default st s =
      remove_change (record st { def_values = sets.remove st.def_values s.path }) s

  -- The same with the table `my_changes` of the socket at address `a`.
  unfoldable pub insert_mine : State → ℕ → Socket → SetInfo → State
  insert_mine st a sock s =
      insert_change
        (record st {
          sockets =
              update st.sockets a
                (some (record sock { my_changes = sets.insert sock.my_changes s.path s }));
        })
        s

  unfoldable pub remove_mine : State → ℕ → Socket → SetInfo → State
  remove_mine st a sock s =
      remove_change
        (record st {
          sockets =
              update st.sockets a
                (some (record sock { my_changes = sets.remove sock.my_changes s.path }));
        })
        s
