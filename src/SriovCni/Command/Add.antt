-- ===== src/SriovCni/Command/Add.antt =====
-- `cmdAdd` of sriov_cni/cmd/sriov/main.go.
pub mod Deferred
pub mod Recording
pub mod Runs
pub mod Whole
pub mod Caching
pub mod Loaded
pub mod Exclusive
pub mod Undone
pub mod Stuck
use ipu_opi_plugins.Prelude.{
  ℕ, not, Bool, true, false, Option, none, some, String, List, [], ◌∷◌, ◌==◌, string_eq,
  if◌then◌else◌, length, nat_eq, map,
}
use ipu_opi_plugins.Outcome.{
  Outcome, ok, err, panic, Action, Attempt, pure, throw, throw_if, gets, or_throw, attempt,
  wrapping, zoom, modify, ignore_error, ◌>>=◌, ◌>>◌,
}
use ipu_opi_plugins.SriovCni.Types.{NetConf}
use ipu_opi_plugins.SriovCni.Host.{
  Host, CniError, NsResult, opened, ns_not_exist, ns_failed, namespace_failed, bad_args,
  lookup_failed, ipam_failed, rpc_failed, dial_failed, bad_result, missing_ip, configure_failed,
  print_failed, parse_mac_failed, bad_json,
}
use ipu_opi_plugins.SriovCni.Utils.{Cni}
use ipu_opi_plugins.SriovCni.Packets.{Ip, Sockets, announce_ips}
use ipu_opi_plugins.SriovCni.Allocator.{new_pci_allocator, save_allocated_pci}
use ipu_opi_plugins.SriovCni.Config.{
  Json, CmdArgs, load_conf, save_net_conf, default_cni_dir, to_lower, get_mac_address_for_result,
}
use ipu_opi_plugins.SriovCni.Sriov.{
  named, in_namespace, release_vf, reset_vf_config, apply_vf_config, setup_vf,
}
use ipu_opi_plugins.SriovCni.Command.{Remote, create_request}
use ipu_opi_plugins.IpuPlugin.BridgePort.{BridgePort}

-- `current.Interface`, `current.IPConfig` and `current.Result`; `others` are the routes and the
-- names of the IPAM plugin, which are passed on.
pub record Interface : Type 0 where
  pub name : String
  pub mac : String
  pub sandbox : String

pub record IpConfig : Type 0 where
  pub interface : Option ℕ
  pub address : Ip

pub record CniResult : Type 0 where
  pub interfaces : List Interface
  pub ips : List IpConfig
  pub others : String

-- The libraries of CNI, and the call of the service at an address.
pub record Adding (K : Type 0) : Type 0 where
  -- `types.LoadArgs` into an `envArgs`: its MAC.
  pub load_args : String → Option String
  pub exec_add : String → String → K → Option String × K
  pub new_result_from_result : String → Option CniResult
  pub configure_iface : String → CniResult → Attempt K
  pub create_bridge_port : String → BridgePort → Attempt K
  pub print_result : CniResult → String → Attempt K

-- An error of `cmdAdd`: one that is in the variable `err` which the deferred functions read, or
-- one that they do not see: an inner `err`, an expression of a `return`, or the end of the
-- process in `log.Fatalf`.
pub data AddFailure : Type 0 where
  seen unseen : CniError → AddFailure

-- `getEnvArgs`: the MAC, or nothing where there are no arguments.
unfoldable pub get_env_args : {K : Type 0} → Adding K → String → Option (Option String)
get_env_args adding env_args_string =
    if not (env_args_string == "")
    then elim (adding.load_args env_args_string) [ none ↦ none | some mac ↦ some (some mac) ]
    else some none

abbrev pub prefer : String → NetConf → NetConf
prefer mac conf = if not (mac == "") then record conf { mac = mac } else conf

abbrev pub prefer_env : Option String → NetConf → NetConf
prefer_env none conf = conf
prefer_env (some mac) conf = prefer mac conf

-- The MAC address of the runtime configuration goes before that of the arguments, which goes
-- before that of the configuration.
unfoldable pub choose_mac : Option String → NetConf → NetConf
choose_mac env_mac conf =
    let chosen = prefer conf.runtime_mac (prefer_env env_mac conf) in
    record chosen { mac = to_lower chosen.mac }

abbrev pub on_container : IpConfig → IpConfig
on_container ipc = record ipc { interface = some 0 }

module _ {K : Type 0} (host : Host K) (json : Json) (remote : Remote K) (adding : Adding K)
    (sockets : Sockets K) where
  -- The steps behind `GetNS` run on the node and the configuration.
  abbrev pub Add : Type 0 → Type 0
  Add A = Action (K × NetConf) AddFailure A

  -- A step on the node that reads the configuration, whose error is seen or not.
  abbrev pub on_node : {A : Type 0} → (CniError → AddFailure) → (NetConf → Cni host A) → Add A
  on_node f m (k, conf) = let (r, k') = wrapping f (m conf) k in (r, (k', conf))

  -- The error of this step is an inner one.
  unfoldable pub apply_config : Add (Unit {0})
  apply_config = on_node unseen (apply_vf_config host)

  unfoldable pub set_up : CmdArgs → ℕ → Add (Unit {0})
  set_up args netns (k, conf) =
      if not conf.dpdk_mode
      then wrapping seen (setup_vf host args.if_name netns) (k, conf)
      else (ok tt, (k, conf))

  -- `netns.Path()` is the path that `GetNS` was given.
  abbrev pub interface_for : CmdArgs → NetConf → Interface
  interface_for args conf = record {
    name = args.if_name;
    mac = get_mac_address_for_result conf;
    sandbox = args.netns;
  }

  abbrev pub cache_conf : CmdArgs → NetConf → Cni host (Unit {0})
  cache_conf args conf = save_net_conf host json args.container_id default_cni_dir args.if_name conf

  abbrev pub mark_pci : CmdArgs → NetConf → Cni host (Unit {0})
  mark_pci args conf =
      save_allocated_pci host (new_pci_allocator default_cni_dir) conf.device_id args.netns

  abbrev pub create_port : List ℕ → NetConf → Cni host (Unit {0})
  create_port mac conf =
      attempt (adding.create_bridge_port conf.dpu_daemon_address (create_request conf mac))
        rpc_failed

  abbrev pub print : CniResult → NetConf → Cni host (Unit {0})
  print result conf = attempt (adding.print_result result conf.cni_version) print_failed

  unfoldable pub create_and_print : CniResult → List ℕ → Add (Unit {0})
  create_and_print result mac = on_node seen (create_port mac) >> on_node unseen (print result)

  unfoldable pub parse_and_create : CniResult → NetConf → Add (Unit {0})
  parse_and_create result conf = do
    mac ← or_throw (host.parse_mac conf.orig_vf_state.effective_mac) (seen parse_mac_failed)
    create_and_print result mac

  -- The steps from `grpc.Dial` to the end.
  unfoldable pub request_port : CniResult → Add (Unit {0})
  request_port result = do
    conf ← gets (λ s. s.1)
    dialed ← gets (λ s. remote.dial s.0 conf.dpu_daemon_address)
    throw_if (not dialed) (unseen dial_failed)
    parse_and_create result conf

  unfoldable pub mark_and_request : CmdArgs → CniResult → Add (Unit {0})
  mark_and_request args result = on_node seen (mark_pci args) >> request_port result

  -- The steps behind the result.
  unfoldable pub record_and_request : CmdArgs → CniResult → Add (Unit {0})
  record_and_request args result = on_node seen (cache_conf args) >> mark_and_request args result

  -- What runs in the pod's namespace; the answer of `AnnounceIPs` is not read.
  unfoldable pub configure_in_pod : CmdArgs → CniResult → Cni host (Unit {0})
  configure_in_pod args result = do
    attempt (adding.configure_iface args.if_name result) configure_failed
    ignore_error (announce_ips host sockets args.if_name (map (λ ipc. ipc.address) result.ips))

  unfoldable pub configure : CmdArgs → ℕ → CniResult → Add (Unit {0})
  configure args netns result (k, conf) =
      if not conf.dpdk_mode
      then on_node seen (λ _. in_namespace host netns (configure_in_pod args result)) (k, conf)
      else (ok tt, (k, conf))

  -- All addresses are those of the interface in the pod.
  abbrev pub with_interface : Interface → CniResult → CniResult
  with_interface interface new = record new {
    interfaces = interface ∷ [];
    ips = map on_container new.ips;
  }

  unfoldable pub configure_and_record : CmdArgs → ℕ → CniResult → Add (Unit {0})
  configure_and_record args netns result =
      configure args netns result >> record_and_request args result

  -- The steps behind `ExecAdd`, with the plugin's result.
  unfoldable pub use_ipam : CmdArgs → ℕ → Interface → String → Add (Unit {0})
  use_ipam args netns interface raw = do
    new ← or_throw (adding.new_result_from_result raw) (seen bad_result)
    throw_if (length new.ips == 0) (seen missing_ip)
    configure_and_record args netns (with_interface interface new)

  -- The function that is deferred behind `ExecAdd`.
  unfoldable pub undo_ipam : CmdArgs → Add (Unit {0}) → Add (Unit {0})
  undo_ipam args m s =
      let (r, (k, conf)) = m s in
      let (_, undone) = remote.exec_del conf.ipam_type args.stdin_data k in
      elim r [
        | ok u ↦ (ok u, (k, conf))
        | err (seen e) ↦ (err (seen e), (undone, conf))
        | err (unseen e) ↦ (err (unseen e), (k, conf))
        | panic ↦ (panic, (k, conf))
      ]

  unfoldable pub run_ipam : CmdArgs → ℕ → Interface → Add (Unit {0})
  run_ipam args netns interface (k, conf) =
      let (raw, k1) = adding.exec_add conf.ipam_type args.stdin_data k in
      elim raw [
        | none ↦ (err (seen ipam_failed), (k1, conf))
        | some r ↦ undo_ipam args (use_ipam args netns interface r) (k1, conf)
      ]

  unfoldable pub address_and_record : CmdArgs → ℕ → Add (Unit {0})
  address_and_record args netns (k, conf) =
      if not (conf.ipam_type == "")
      then run_ipam args netns (interface_for args conf) (k, conf)
      else record_and_request args
          (record { interfaces = interface_for args conf ∷ []; ips = []; others = "" }) (k, conf)

  unfoldable pub set_up_and_record : CmdArgs → ℕ → Add (Unit {0})
  set_up_and_record args netns = set_up args netns >> address_and_record args netns

  -- `cmdAdd` behind `GetNS`, before the deferred functions.
  unfoldable pub run_add : CmdArgs → ℕ → Add (Unit {0})
  run_add args netns = apply_config >> set_up_and_record args netns
