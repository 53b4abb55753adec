-- ===== src/IpuPlugin/Bridge.antt =====
-- `BridgeController` of ipu-plugin/pkg/types/types.go, over an unknown system state, and the
-- errors of its implementations. The error values keep what the program can tell apart; the
-- texts and the causes that netlink or the command gives are left out.
pub mod Linux
pub mod Ovs
use ipu_opi_plugins.Prelude.{String}
use ipu_opi_plugins.Outcome.{Action}

pub data BridgeError : Type 0 where
  name_empty not_a_bridge create_failed bring_up_failed : BridgeError
  port_not_found not_a_vlan bridge_not_found : BridgeError
  set_master_failed set_up_failed set_no_master_failed set_down_failed : BridgeError
  ovs_failed : BridgeError

pub record BridgeController (K : Type 0) : Type 0 where
  pub ensure_bridge_exists : Action K BridgeError (Unit {0})
  pub add_port : String → Action K BridgeError (Unit {0})
  pub delete_port : String → Action K BridgeError (Unit {0})

-- `BridgeType`
pub data BridgeType : Type 0 where
  ovs_bridge linux_bridge : BridgeType
