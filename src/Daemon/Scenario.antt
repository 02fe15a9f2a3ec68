-- ===== src/Daemon/Scenario.antt =====
-- Two clients that limit one frequency, in the daemon's example environment.
use cray_pwrapi.Base.{
  ℕ, ◌^◌, ◌<◌, ◌≡◌, refl, List, [], ◌∷◌, true, none, some, arith, ℕ_discrete, update,
}
use cray_pwrapi.Types.{role_app, attr_freq_limit_max, data_uint64}
use cray_pwrapi.Daemon.Request.{FilePath, SetInfo}
use cray_pwrapi.Daemon.Order.{IsRanked}
use cray_pwrapi.Daemon.State.{State, Socket, changes_in}
use cray_pwrapi.Daemon.Changes.{IsArbitrated}
use cray_pwrapi.Daemon.FileIo.{file_read_uint64}
use cray_pwrapi.Daemon.Sync.{holds, InSync}
use cray_pwrapi.Daemon.Worker.{is_persistent}
use cray_pwrapi.Daemon.Concrete.{Disk, put, number_order, path_discrete, disk_env}

abbrev pub limit_path : FilePath
limit_path = 7 ∷ []

abbrev pub request : ℕ → ℕ → SetInfo
request ident value = record {
  ident = ident;
  attribute = attr_freq_limit_max;
  data_type = data_uint64;
  value = value;
  path = limit_path;
  skinfo = none;
  timestamp = 0;
}

pub request-IsRanked :
    (ident value : ℕ)
    → value < 2 ^ 64
    → IsRanked number_order attr_freq_limit_max data_uint64 true (request ident value)
request-IsRanked ident value h = record { same_attribute = refl; same_type = refl; in_range = h }

-- The first client asks for 10, the second one for 20, and the default is 30.
abbrev pub first_request : SetInfo
first_request = request 1 10

abbrev pub second_request : SetInfo
second_request = request 2 20

abbrev pub default_request : SetInfo
default_request = request 0 30

abbrev pub queued : List SetInfo
queued = first_request ∷ second_request ∷ default_request ∷ []

pub queued-IsArbitrated :
    IsArbitrated disk_env number_order attr_freq_limit_max data_uint64 true queued
queued-IsArbitrated = record {
  ranked = (
    request-IsRanked 1 10 (omega arith),
    (request-IsRanked 2 20 (omega arith), (request-IsRanked 0 30 (omega arith), tt)),
  );
  in_order = ((omega arith, (omega arith, tt)), ((omega arith, tt), (tt, tt)));
}

abbrev pub client : List (FilePath × SetInfo) → Socket disk_env
client mine = record { sockid = 5; uid = 1000; role = role_app; my_changes = mine; seqnum = 3 }

abbrev pub disk : Disk
disk = put (λ p. none) limit_path 10

abbrev pub running : List SetInfo → Socket disk_env → State disk_env
running list sock = record {
  open_sockets = (5, 100) ∷ [];
  def_values = (limit_path, default_request) ∷ [];
  all_changes = (limit_path, list) ∷ [];
  sockets = update (λ a. none) 100 (some sock);
  work_queue = [];
  next = 200;
  fs = disk;
  sent = [];
}

pub disk_reads : file_read_uint64 disk_env.files disk limit_path ≡ some 10
unfolding file_read_uint64 path_discrete ℕ_discrete
disk_reads = refl

pub running-InSync :
    (sock : Socket disk_env) → InSync disk_env number_order (running queued sock) limit_path
unfolding changes_in is_persistent path_discrete ℕ_discrete
running-InSync sock = holds first_request (second_request ∷ default_request ∷ []) refl disk_reads
