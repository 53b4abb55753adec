-- ===== src/SriovCni/Command.antt =====
-- The requests of sriov_cni/cmd/sriov/main.go: what `cmdAdd` and `cmdDel` ask of the bridge
-- port service, and `cmdDel` itself.
pub mod Requests
pub mod Served
pub mod Delete
pub mod Released
pub mod Add
use ipu_opi_plugins.Prelude.{
  not, Bool, ◌==◌, string_eq, if◌then◌else◌, ℕ, Option, none, some, String, ◌<>◌, List, [], ◌∷◌,
}
use ipu_opi_plugins.Prelude.Int.{ℤ, pos, ◌+ℤ◌, wrap64}
use ipu_opi_plugins.Outcome.{
  Outcome, ok, err, panic, Action, Attempt, pure, throw, gets, throw_if, attempt, wrapping, ◌>>=◌,
  ◌>>◌,
}
use ipu_opi_plugins.SriovCni.Host.{
  Host, FilePath, CniError, NsResult, opened, ns_not_exist, ns_failed, namespace_failed, bad_json,
  ipam_failed, rpc_failed, dial_failed,
}
use ipu_opi_plugins.SriovCni.Utils.{Cni, get_vfid, clean_cached_net_conf}
use ipu_opi_plugins.SriovCni.Allocator.{new_pci_allocator, delete_allocated_pci}
use ipu_opi_plugins.SriovCni.Config.{Json, CmdArgs, load_conf_from_cache, default_cni_dir}
use ipu_opi_plugins.SriovCni.Sriov.{release_vf, reset_vf_config}
use ipu_opi_plugins.Text.Decimal.{format}
use ipu_opi_plugins.SriovCni.Types.{NetConf}
use ipu_opi_plugins.IpuPlugin.BridgePort.{BridgePort, BridgePortSpec}

-- The calls that leave the node: the IPAM plugin, and the service at an address. Where
-- `grpc.Dial` fails, `log.Fatalf` ends the process with no deferred call: that is a kept error.
pub record Remote (K : Type 0) : Type 0 where
  pub exec_del : String → String → Attempt K
  pub dial : K → String → Bool
  pub delete_bridge_port : String → String → Attempt K

-- An error of `cmdDel`: one that is kept in the variable `err` which the deferred function
-- reads, or one that an inner `err` shadows.
pub data Failure : Type 0 where
  kept shadowed : CniError → Failure

-- The name of the port, which both commands build.
unfoldable pub port_name : NetConf → String
port_name conf = conf.master <> format conf.vf_id

-- The port that `cmdAdd` asks for, with the address that `net.ParseMAC` read.
unfoldable pub create_request : NetConf → List ℕ → BridgePort
create_request conf mac = record {
  name = port_name conf;
  spec = some (record {
    ptype = 1;
    mac_address = mac;
    logical_bridges = format (wrap64 (conf.vf_id +ℤ pos 2)) ∷ [];
  });
  status = none;
}

module _ {K : Type 0} (host : Host K) (json : Json) (remote : Remote K) where
  abbrev pub unless : Bool → Action K Failure (Unit {0}) → Action K Failure (Unit {0})
  unless c m k = if c then (ok tt, k) else m k

  -- The steps of `cmdDel` behind the release of the interface.
  unfoldable pub give_back : NetConf → Action K Failure (Unit {0})
  give_back conf = do
    wrapping kept (delete_allocated_pci host (new_pci_allocator default_cni_dir) conf.device_id)
    dialed ← gets (λ k. remote.dial k conf.dpu_daemon_address)
    throw_if (not dialed) (kept dial_failed)
    attempt (remote.delete_bridge_port conf.dpu_daemon_address (port_name conf)) (kept rpc_failed)

  -- The steps with the namespace: one that does not exist ends the command with success.
  unfoldable pub release_from : NsResult → CmdArgs → NetConf → Action K Failure (Unit {0})
  release_from ns_not_exist args conf = pure tt
  release_from ns_failed args conf = throw (shadowed namespace_failed)
  release_from (opened fd) args conf = do
    wrapping shadowed (release_vf host conf args.if_name fd)
    give_back conf

  -- `cmdDel` behind the reset of the virtual function.
  unfoldable pub release_and_give_back : CmdArgs → NetConf → Action K Failure (Unit {0})
  release_and_give_back args conf = do
    ns ← gets (λ k. host.get_ns k args.netns)
    if conf.dpdk_mode then give_back conf else release_from ns args conf

  -- `cmdDel` behind the check of the virtual function's number.
  unfoldable pub reset_and_release : CmdArgs → NetConf → Action K Failure (Unit {0})
  reset_and_release args conf = do
    wrapping shadowed (reset_vf_config host conf)
    release_and_give_back args conf

  -- `cmdDel` from the check of the virtual function's number on.
  unfoldable pub check_and_release : CmdArgs → NetConf → Action K Failure (Unit {0})
  check_and_release args conf k = elim (get_vfid host k conf.device_id conf.master) [
    | err e ↦ (err (shadowed e), k)
    | panic ↦ (panic, k)
    | ok _ ↦ reset_and_release args conf k
  ]

  unfoldable pub run_del : CmdArgs → NetConf → Action K Failure (Unit {0})
  run_del args conf = do
    unless (conf.ipam_type == "")
        (attempt (remote.exec_del conf.ipam_type args.stdin_data) (kept ipam_failed))
    unless (args.netns == "") (check_and_release args conf)

  -- The deferred function: the cached configuration goes unless an error was kept.
  unfoldable pub finish_del :
      FilePath → Outcome Failure (Unit {0}) × K → Outcome CniError (Unit {0}) × K
  finish_del path (ok _, k) = (ok tt, (clean_cached_net_conf host path k).1)
  finish_del path (err (kept e), k) = (err e, k)
  finish_del path (err (shadowed e), k) = (err e, (clean_cached_net_conf host path k).1)
  finish_del path (panic, k) = (panic, (clean_cached_net_conf host path k).1)

  -- `SetLogging` only reads the text. Where no configuration is cached there is nothing to do.
  unfoldable pub cmd_del : CmdArgs → Cni host (Unit {0})
  cmd_del args k = elim (json.unmarshal args.stdin_data) [
    | none ↦ (err bad_json, k)
    | some _ ↦ elim (load_conf_from_cache host json k args) [
      | err _ ↦ (ok tt, k)
      | panic ↦ (panic, k)
      | ok (conf, path) ↦ finish_del path (run_del args conf k)
    ]
  ]
