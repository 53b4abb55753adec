-- ===== src/IpuPlugin/Bridge/Ovs.antt =====
-- `ovsBridge` of ipu-plugin/pkg/ipuplugin/ovsbridge.go. Running a command (`os/exec`) is a
-- parameter: the program's path and its arguments, and whether it ended with status 0.
use ipu_opi_plugins.Prelude.{String, ◌<>◌, List, [], ◌∷◌}
use ipu_opi_plugins.Outcome.{Action, Attempt, attempt}
use ipu_opi_plugins.IpuPlugin.Bridge.{BridgeError, ovs_failed, BridgeController}

module _ {K : Type 0} (run : String → List String → Attempt K) (br_name ovs_cli_dir : String) where
  ovs_vsctl : List String → Action K BridgeError (Unit {0})
  ovs_vsctl args = attempt (run (ovs_cli_dir <> "/ovs-vsctl") args) ovs_failed

  unfoldable pub ensure_bridge_exists : Action K BridgeError (Unit {0})
  unfolding ovs_vsctl
  ensure_bridge_exists = ovs_vsctl ("--may-exist" ∷ "add-br" ∷ br_name ∷ [])

  unfoldable pub add_port : String → Action K BridgeError (Unit {0})
  unfolding ovs_vsctl
  add_port port_name = ovs_vsctl ("add-port" ∷ br_name ∷ port_name ∷ [])

  unfoldable pub delete_port : String → Action K BridgeError (Unit {0})
  unfolding ovs_vsctl
  delete_port port_name = ovs_vsctl ("del-port" ∷ br_name ∷ port_name ∷ [])

  -- `NewOvsBridgeController`
  abbrev pub ovs_bridge_controller : BridgeController K
  ovs_bridge_controller = record {
    ensure_bridge_exists = ensure_bridge_exists;
    add_port = add_port;
    delete_port = delete_port;
  }
