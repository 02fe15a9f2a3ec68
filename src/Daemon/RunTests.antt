-- ===== src/Daemon/RunTests.antt =====
-- A run of the daemon: a client connects, authenticates itself and asks for a limit, and the worker
-- processes the request.
use cray_pwrapi.Base.{
  ◌≡◌, refl, true, [], none, some, ℤ, pos, ◌⊎◌, Outcome, value_or, arith, ℕ_discrete,
}
use cray_pwrapi.Types.{AttrName, role_app, attr_freq_limit_max, data_uint64}
use cray_pwrapi.Glib.Concrete.PlainList.{insert_list}
use cray_pwrapi.Daemon.Request.{FilePath, SetInfo, value_compare, comp_by, attr_value_comp}
use cray_pwrapi.Daemon.Order.{IsRanked}
use cray_pwrapi.Daemon.State.{
  State, changes_in, changes_at, insert_change, insert_default, insert_mine,
}
use cray_pwrapi.Daemon.Changes.{IsArbitrated}
use cray_pwrapi.Daemon.FileIo.{
  file_read_uint64, read_value_by_type, read_by, read_attr_value, flushed, file_write_uint64,
  write_value_by_type, write_by, write_attr_value,
}
use cray_pwrapi.Daemon.Worker.{
  socket_at, is_persistent, send_response, set_create_item, new_default, set_default, drop_old,
  apply_change, make_change, worker_process_item,
}
use cray_pwrapi.Daemon.Socket.{
  auth, set_req, socket_construct, socket_lookup, process_auth, process_set, process_message,
  process_client_req,
}
use cray_pwrapi.Daemon.Steps.{Typed}
use cray_pwrapi.Daemon.Runs.{Run, start, accepts, receives, works, TypedMessage, always_in_order}
use cray_pwrapi.Daemon.Concrete.{number_order, path_discrete, disk_env}
use cray_pwrapi.Daemon.Scenario.{limit_path, request, disk}

abbrev empty_state : State disk_env
empty_state = record {
  open_sockets = [];
  def_values = [];
  all_changes = [];
  sockets = λ a. none;
  work_queue = [];
  next = 100;
  fs = disk;
  sent = [];
}

abbrev connected : State disk_env
connected = socket_construct disk_env empty_state 5 1000

abbrev receive : State disk_env → Outcome (ℤ × State disk_env) → State disk_env
receive st r = (value_or (pos 1, st) r).1

abbrev authenticated : State disk_env
authenticated = receive connected (process_client_req disk_env connected 5 (some (auth role_app)))

abbrev asked : State disk_env
asked =
    receive authenticated
      (process_client_req disk_env authenticated 5 (some (set_req (request 0 8))))

abbrev item : SetInfo
item = record (request 0 8) { ident = 101; skinfo = some 100; timestamp = 0 }

abbrev worked : State disk_env
worked =
    value_or asked (worker_process_item disk_env (record asked { work_queue = [] }) 100 item 50 60)

abbrev every_attr : FilePath → AttrName
every_attr p = attr_freq_limit_max

item-IsRanked : IsRanked number_order attr_freq_limit_max data_uint64 true (request 0 8)
item-IsRanked = record { same_attribute = refl; same_type = refl; in_range = omega arith }

abbrev Runs : State disk_env → Type 0
Runs st =
    Run disk_env (TypedMessage disk_env number_order every_attr (λ p. true) (λ p. refl) (λ p. refl))
      empty_state st

asked-Runs : Runs asked
unfolding socket_construct process_client_req socket_lookup socket_at process_message process_auth
    process_set set_create_item send_response ℕ_discrete
asked-Runs =
    receives 5 (set_req (request 0 8)) (pos 0)
      (receives 5 (auth role_app) (pos 0) (accepts 5 1000 start) tt refl) item-IsRanked refl

worked-Runs : Runs worked
unfolding socket_construct process_client_req socket_lookup socket_at process_message process_auth
    process_set set_create_item send_response ℕ_discrete worker_process_item set_default new_default
    make_change drop_old apply_change is_persistent insert_mine insert_default insert_change
    changes_in read_attr_value read_by read_value_by_type file_read_uint64 write_attr_value write_by
    write_value_by_type file_write_uint64 flushed attr_value_comp comp_by value_compare insert_list
    path_discrete
worked-Runs = works item [] 100 50 60 asked-Runs refl refl refl

always_in_order_example :
    IsArbitrated disk_env number_order attr_freq_limit_max data_uint64 true
      (changes_at disk_env worked limit_path)
    × ((disk_env.sets.lookup worked.def_values limit_path ≡ none)
        ⊎ ((defset : SetInfo) × (disk_env.sets.lookup worked.def_values limit_path ≡ some defset)
            × (defset.path ≡ limit_path)
            × Typed disk_env number_order every_attr (λ p. true) (λ p. refl) (λ p. refl) defset))
always_in_order_example =
    always_in_order disk_env number_order every_attr (λ p. true) (λ p. refl) (λ p. refl) empty_state
      worked limit_path refl refl refl worked-Runs
