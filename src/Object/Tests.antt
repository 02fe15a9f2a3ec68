-- ===== src/Object/Tests.antt =====
-- Runs of forward_attr_set_value.
use cray_pwrapi.Base.{◌≡◌, refl, negsuc}
use cray_pwrapi.Types.{attr_gov}
use cray_pwrapi.Object.Tree.{children_of}
use cray_pwrapi.Object.Values.{
  forward_attr_set_value, forward_loop, set_by_type, note_status, core_attr_set_value,
  socket_attr_set_value, ht_attr_set_value,
}
use cray_pwrapi.Object.Flat.{verdict, run_calls, calls_below}
use cray_pwrapi.Object.Forward.{forward-verdict}
use cray_pwrapi.Object.Sample.{counter, a_node}

governors_runs : forward_attr_set_value counter (children_of a_node) 7 attr_gov 2 5 ≡ (negsuc 8, 7)
unfolding forward_attr_set_value forward_loop set_by_type note_status core_attr_set_value
    socket_attr_set_value ht_attr_set_value
governors_runs = refl

forward-verdict_example : forward_attr_set_value counter (children_of a_node) 7 attr_gov 2 5 ≡ (
  verdict (run_calls (calls_below counter 7 attr_gov 2 (children_of a_node)) 5).0,
  (run_calls (calls_below counter 7 attr_gov 2 (children_of a_node)) 5).1,
)
forward-verdict_example = forward-verdict counter 7 attr_gov 2 (children_of a_node) 5 (tt, (tt, tt))
