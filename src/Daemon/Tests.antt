-- ===== src/Daemon/Tests.antt =====
-- Runs of the daemon in its example environment.
use cray_pwrapi.Base.{
  ℕ, ◌≡◌, refl, List, [], ◌∷◌, true, none, some, inl, arith, ret, fault, ℕ_discrete, pos, sign_of,
  before, same, update, ◌++◌,
}
use cray_pwrapi.Types.{attr_freq_limit_max, attr_gov, data_uint64, ret_success}
use cray_pwrapi.Daemon.Request.{SetInfo, attr_value_comp}
use cray_pwrapi.Daemon.Order.{rank, attr_value_comp-sign_of, gov_compare_not_transitive}
use cray_pwrapi.Daemon.State.{State, Response, changes_in, changes_at, insert_change, remove_change}
use cray_pwrapi.Daemon.Changes.{IsArbitrated, set_insert_remove-IsArbitrated}
use cray_pwrapi.Daemon.FileIo.{
  file_read_uint64, write_attr_value, write_by, write_value_by_type, file_write_uint64, flushed,
}
use cray_pwrapi.Daemon.Sync.{InSync}
use cray_pwrapi.Daemon.Worker.{socket_at, set_create_item, is_persistent, worker_process_item}
use cray_pwrapi.Daemon.FirstChange.{Serves}
use cray_pwrapi.Daemon.Client.{Among, worker_first_change}
use cray_pwrapi.Daemon.Replace.{replaced_top_stale}
use cray_pwrapi.Daemon.Socket.{
  set_req, set_rollback, rollback_all, socket_lookup, socket_destruct, process_client_req,
  process_message, process_set,
}
use cray_pwrapi.Daemon.Rollback.{rollback_restores}
use cray_pwrapi.Daemon.Gate.{closed_request_faults}
use cray_pwrapi.Daemon.Concrete.{number_doubles, number_order, path_discrete, disk_env}
use cray_pwrapi.Daemon.Scenario.{
  limit_path, request, request-IsRanked, first_request, second_request, default_request, queued,
  queued-IsArbitrated, client, disk, running, disk_reads, running-InSync,
}

attr_value_comp-sign_of_example :
    attr_value_comp number_doubles first_request second_request
    ≡ sign_of
        (rank number_order data_uint64 true first_request)
        (rank number_order data_uint64 true second_request)
attr_value_comp-sign_of_example =
    attr_value_comp-sign_of number_order attr_freq_limit_max data_uint64 true first_request
      second_request refl (request-IsRanked 1 10 (omega arith))
      (request-IsRanked 2 20 (omega arith))

abbrev governor : ℕ → ℕ → SetInfo
governor value time = record {
  ident = time;
  attribute = attr_gov;
  data_type = data_uint64;
  value = value;
  path = limit_path;
  skinfo = none;
  timestamp = time;
}

gov_compare_not_transitive_example :
    (attr_value_comp number_doubles (governor 2 30) (governor 3 20) ≡ before)
    × (attr_value_comp number_doubles (governor 3 20) (governor 2 10) ≡ before)
    × (attr_value_comp number_doubles (governor 2 30) (governor 2 10) ≡ same)
gov_compare_not_transitive_example =
    gov_compare_not_transitive number_doubles (governor 2 30) (governor 3 20) (governor 2 10) refl
      refl refl (omega arith) (omega arith) (omega arith) (omega arith) (omega arith)

set_insert_remove-IsArbitrated_example :
    IsArbitrated disk_env number_order attr_freq_limit_max data_uint64 true (
      changes_at disk_env
        (insert_change disk_env (running queued (client [])) (request 3 15))
        limit_path)
    × IsArbitrated disk_env number_order attr_freq_limit_max data_uint64 true (
        changes_at disk_env
          (remove_change disk_env (running queued (client [])) (request 3 15))
          limit_path)
unfolding changes_in is_persistent path_discrete ℕ_discrete
set_insert_remove-IsArbitrated_example =
    set_insert_remove-IsArbitrated disk_env number_order attr_freq_limit_max data_uint64 true
      (running queued (client [])) (request 3 15) refl (request-IsRanked 3 15 (omega arith))
      queued-IsArbitrated

worker_first_change_example :
    (old : List SetInfo) × Among disk_env number_order (running queued (client [])) limit_path old
    × Serves disk_env number_order attr_freq_limit_max true refl refl
        (running queued (client []))
        old
        100
        (client [])
        (record (request 3 5) { timestamp = 60 })
        (worker_process_item disk_env (running queued (client [])) 100 (request 3 5) 50 60)
unfolding changes_in is_persistent path_discrete ℕ_discrete
worker_first_change_example =
    worker_first_change disk_env number_order attr_freq_limit_max true refl refl
      (running queued (client [])) 100 (client []) (request 3 5) 50 60 refl refl refl
      (request-IsRanked 3 5 (omega arith)) queued-IsArbitrated
      (inl (default_request, refl, running-InSync (client [])))

-- The first client asks for 40 instead of its 10.
replaced_top_stale_example :
    (st' : State disk_env) × (r : Response disk_env) × (worker_process_item disk_env
        (running queued (client ((limit_path, first_request) ∷ [])))
        100
        (request 3 40)
        50
        60
      ≡ ret st')
    × (st'.sent ≡ r ∷ [])
    × (r.to ≡ 5)
    × (r.retval ≡ ret_success)
    × (file_read_uint64 disk_env.files st'.fs limit_path ≡ some 10)
    × ((rest : List SetInfo) × (changes_at disk_env st' limit_path ≡ second_request ∷ rest))
    × (¬ InSync disk_env number_order st' limit_path)
unfolding changes_in is_persistent path_discrete ℕ_discrete
replaced_top_stale_example =
    replaced_top_stale disk_env number_order attr_freq_limit_max true refl
      (running queued (client ((limit_path, first_request) ∷ []))) 100
      (client ((limit_path, first_request) ∷ [])) (request 3 40) first_request second_request
      default_request (default_request ∷ []) 50 60 refl refl refl refl refl
      (request-IsRanked 3 40 (omega arith)) refl queued-IsArbitrated (omega arith) disk_reads
      (omega arith)

second_written : (write_attr_value disk_env.files disk second_request).1 ≡ true
unfolding write_attr_value write_by write_value_by_type file_write_uint64 flushed
second_written = refl

rollback_restores_example :
    (st' : State disk_env) × (set_rollback disk_env (running queued (client [])) first_request
      ≡ ret st')
    × InSync disk_env number_order st' limit_path
    × (changes_at disk_env st' limit_path ≡ second_request ∷ default_request ∷ [])
unfolding changes_in is_persistent path_discrete ℕ_discrete
rollback_restores_example =
    rollback_restores disk_env number_order attr_freq_limit_max true refl refl
      (running queued (client [])) first_request second_request []
      (second_request ∷ default_request ∷ []) (default_request ∷ []) refl tt refl refl
      queued-IsArbitrated (running-InSync (client [])) second_written

-- The state once the request is queued, and the state once the connection is closed as well.
abbrev after_request : State disk_env
after_request = record (running queued (client [])) {
  work_queue = record (request 9 5) { ident = 200; skinfo = some 100; timestamp = 0 } ∷ [];
  next = 201;
}

abbrev after_close : State disk_env
after_close = record after_request {
  open_sockets = [];
  sockets = update after_request.sockets 100 none;
}

queues :
    process_client_req disk_env (running queued (client [])) 5 (some (set_req (request 9 5)))
    ≡ ret (pos 0, after_request)
unfolding process_client_req process_message process_set set_create_item socket_lookup socket_at
    ℕ_discrete
queues = refl

closes : socket_destruct disk_env after_request 5 ≡ ret after_close
unfolding socket_destruct socket_lookup socket_at rollback_all ℕ_discrete
closes = refl

closed_request_faults_example :
    (item : SetInfo) × (after_close.work_queue ≡ [] ++ item ∷ [])
    × (item.skinfo ≡ some 100)
    × (worker_process_item disk_env after_close 100 item 50 60 ≡ fault)
unfolding ℕ_discrete
closed_request_faults_example =
    closed_request_faults disk_env (running queued (client [])) after_request after_close 5 100
      (client []) (request 9 5) 50 60 refl refl refl queues closes
