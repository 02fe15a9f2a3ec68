-- ===== src/Object/Sample.antt =====
-- A machine to run the code on: its state is the number of calls made, every reading but that of a
-- temperature succeeds, and setting a power limit says that the value is bad.
use cray_pwrapi.Base.{ℕ, suc, ◌+◌, true, none, some, negsuc, pos}
use cray_pwrapi.Object.Tree.{
  Obj, object, Children, childless, sibling, obj_node, obj_socket, obj_core, obj_ht, Getter, Setter,
  Machine,
}

abbrev gives : Getter ℕ
gives self calls = record {
  code = pos 0;
  value = some (self + calls);
  tspec = some (record { tv_sec = 2; tv_nsec = calls });
  machine = suc calls;
}

abbrev fails : Getter ℕ
fails self calls = record { code = negsuc 0; value = none; tspec = none; machine = suc calls }

abbrev accepts : Setter ℕ
accepts self ipc value calls = (pos 0, suc calls)

abbrev rejects : Setter ℕ
rejects self ipc value calls = (negsuc 8, suc calls)

abbrev pub counter : Machine ℕ
counter = record {
  node = record { get_power = gives; get_power_limit_max = gives; get_energy = gives };
  socket = record {
    get_power = gives;
    get_power_limit_max = gives;
    set_power_limit_max = rejects;
    get_energy = gives;
    get_throttled_time = gives;
    get_temp = fails;
  };
  mem = record {
    get_power = gives;
    get_power_limit_max = gives;
    set_power_limit_max = accepts;
    get_energy = gives;
    get_throttled_time = gives;
  };
  pplane = record { get_power = gives; get_energy = gives };
  core = record { get_temp = fails };
  ht = record {
    get_cstate_limit = gives;
    set_cstate_limit = accepts;
    get_freq = gives;
    get_freq_req = gives;
    set_freq_req = accepts;
    get_freq_limit_min = gives;
    set_freq_limit_min = accepts;
    get_freq_limit_max = gives;
    set_freq_limit_max = accepts;
    get_governor = gives;
    set_governor = rejects;
  };
  clock_gettime = λ calls. (some (record { tv_sec = 1; tv_nsec = calls }), calls);
  malloc = λ calls. true;
}

-- Two hardware threads of a core of a socket, which is on a node.
abbrev pub threads : Children
threads = sibling (object obj_ht 31 0 childless) (sibling (object obj_ht 32 1 childless) childless)

abbrev pub a_socket : Obj
a_socket = object obj_socket 20 0 (sibling (object obj_core 30 0 threads) childless)

abbrev pub a_node : Obj
a_node = object obj_node 10 0 (sibling a_socket childless)
