-- ===== src/IpuPlugin/Server.antt =====
-- The server of ipu-plugin/pkg/ipuplugin/ipuplugin.go and the command line of
-- ipu-plugin/ipuplugin/cmd/rootcmd.go, which puts the plugin's parts together. Files, sockets,
-- signals and the packages `grpc`, `viper` and `logrus` are the fields of `Process`.
pub mod Launch
pub mod Flags
pub mod Bindings
use ipu_opi_plugins.Prelude.{
  ℕ, Bool, true, false, not, ◌&&◌, Option, none, some, String, ◌<>◌, List, ◌==◌, string_eq, nat_eq,
  if◌then◌else◌,
}
use ipu_opi_plugins.Prelude.Int.{ℤ}
use ipu_opi_plugins.Outcome.{
  Outcome, ok, err, panic, Action, Attempt, pure, throw, attempt, or_throw, throw_if, wrapping,
  ignore_error, ◌>>=◌, ◌>>◌,
}
use ipu_opi_plugins.Text.Decimal.{format}
use ipu_opi_plugins.Netlink.{Netlink}
use ipu_opi_plugins.SriovCni.Host.{Removal, removed, nothing_there, remove_error}
use ipu_opi_plugins.IpuPlugin.Bridge.{
  BridgeError, BridgeController, BridgeType, ovs_bridge, linux_bridge,
}
use ipu_opi_plugins.IpuPlugin.Bridge.Linux.{linux_bridge_controller}
use ipu_opi_plugins.IpuPlugin.Bridge.Ovs.{ovs_bridge_controller}
use ipu_opi_plugins.IpuPlugin.Rules.{P4rtClient, add_rules, delete_rules}
use ipu_opi_plugins.IpuPlugin.BridgePort.{Plugin, RuleClient, State}
use ipu_opi_plugins.IpuPlugin.LifeCycle.{LifeCycleService}

-- The settings that `viper` answers for the flags, the environment and the file.
pub record Settings : Type 0 where
  pub log_dir : String
  pub verbosity : String
  pub serving_addr : String
  pub serving_proto : String
  pub port : ℤ
  pub bridge : String
  pub interface : String
  pub ovs_cli_dir : String
  pub bridge_type : String
  pub p4rtbin : String
  pub port_mux_vsi : ℤ
  pub mode : String
  pub daemon_host_ip : String
  pub daemon_ipu_ip : String
  pub daemon_port : ℤ

-- `server`, whose field `Ports` is in the state.
pub record Server (K : Type 0) : Type 0 where
  pub serving_addr : String
  pub serving_port : ℤ
  pub serving_proto : String
  pub listener : Option ℕ
  pub plugin : Plugin K
  pub life_cycle : LifeCycleService

pub record Process (K : Type 0) : Type 0 where
  pub remove : String → K → Removal × K
  -- `os.MkdirAll` of `filepath.Dir` of the address.
  pub make_socket_dir : String → Attempt K
  pub listen : String → String → K → Option ℕ × K
  pub register_services : Plugin K → LifeCycleService → K → K
  pub go_serve : ℕ → K → K
  pub wait_signal : K → K
  pub graceful_stop : K → K
  pub close_listener : ℕ → K → K
  -- The log.
  pub make_log_dir : String → Attempt K
  pub verified_file_path : String → String → Option String
  pub open_log : String → Attempt K
  pub set_log_output : String → K → K
  pub parse_level : String → Option ℕ
  pub set_log_level : ℕ → K → K
  pub set_report_caller : K → K

-- How `Run` ends but by returning nil: it returns an error, or `log.Fatalf` ends the process.
pub data Halt : Type 0 where
  failed fatal : Halt

-- `logrus.DebugLevel`
abbrev pub debug_level : ℕ
debug_level = 5

unfoldable pub validate_configs : String → Bool
validate_configs mode = not (not (mode == "host") && not (mode == "ipu"))

-- The status of the process: `os.Exit` with a code, or 1 after `log.Fatalf`. A panic ends it
-- with 2.
abbrev pub status : ℕ → Outcome Halt (Unit {0}) → ℕ
status code (ok _) = 0
status code (err failed) = code
status code (err fatal) = 1
status code panic = 2

module _ {K : Type 0} (netlink : Netlink K) (run_command : String → List String → Attempt K)
    (process : Process K) where
  unfoldable pub get_bridge_controller : String → String → String → BridgeController K × BridgeType
  get_bridge_controller bridge bridge_type ovs_cli_dir =
      if bridge_type == "ovs"
      then (ovs_bridge_controller run_command bridge ovs_cli_dir, ovs_bridge)
      else (linux_bridge_controller netlink bridge, linux_bridge)

  abbrev pub new_p4_rt_client : String → ℤ → String → BridgeType → P4rtClient
  new_p4_rt_client p4_rt_bin port_mux_vsi p4br br_type = record {
    p4_rt_bin = p4_rt_bin;
    port_mux_vsi = port_mux_vsi;
    p4br = p4br;
    bridge_type = br_type;
  }

  abbrev pub rule_client : P4rtClient → RuleClient K
  rule_client p = record {
    add_rules = add_rules p run_command;
    delete_rules = delete_rules p run_command;
  }

  -- `NewIpuPlugin` as the command line calls it.
  unfoldable pub new_ipu_plugin : Settings → Server K
  new_ipu_plugin c =
      let (br_ctlr, br_type) = get_bridge_controller c.bridge c.bridge_type c.ovs_cli_dir in
      record {
        serving_addr = c.serving_addr;
        serving_port = c.port;
        serving_proto = c.serving_proto;
        listener = none;
        plugin = record {
          uplink_interface = c.interface;
          netlink = netlink;
          bridge_ctlr = br_ctlr;
          p4_rt_client = rule_client (new_p4_rt_client c.p4rtbin c.port_mux_vsi "br0" br_type);
        };
        life_cycle = record {
          daemon_host_ip = c.daemon_host_ip;
          daemon_ipu_ip = c.daemon_ipu_ip;
          daemon_port = c.daemon_port;
          mode = c.mode;
        };
      }

  abbrev pub Running : Type 0 → Type 0
  Running A = Action K Halt A

  abbrev pub always : (K → K) → Running (Unit {0})
  always f k = (ok tt, f k)

  abbrev pub of_removal : Removal → Outcome Halt (Unit {0})
  of_removal removed = ok tt
  of_removal nothing_there = ok tt
  of_removal remove_error = err failed

  unfoldable pub clean_up : Server K → Running (Unit {0})
  clean_up s k = let (r, k') = process.remove s.serving_addr k in (of_removal r, k')

  abbrev pub listen_at : String → String → Running ℕ
  listen_at proto addr k =
      let (listener, k') = process.listen proto addr k in or_throw listener fatal k'

  unfoldable pub listen_unix : Server K → Running ℕ
  listen_unix s = do
    clean_up s
    attempt (process.make_socket_dir s.serving_addr) fatal
    listen_at s.serving_proto s.serving_addr

  unfoldable pub get_listener : Server K → Running ℕ
  get_listener s k =
      if s.serving_proto == "unix"
      then listen_unix s k
      else if s.serving_proto == "tcp"
      then listen_at s.serving_proto (s.serving_addr <> ":" <> format s.serving_port) k
      else (err failed, k)

  abbrev pub close_and_clean : Server K → Option ℕ → Running (Unit {0})
  close_and_clean s none = pure tt
  close_and_clean s (some listener) =
      always (process.close_listener listener) >> ignore_error (clean_up s)

  unfoldable pub stop : Server K → Running (Unit {0})
  stop s = always process.graceful_stop >> close_and_clean s s.listener

  -- The steps of `Run` behind the bridge.
  unfoldable pub serve : Server K → ℕ → Running (Unit {0})
  serve s listener = do
    always (process.register_services s.plugin s.life_cycle)
    always (process.go_serve listener)
    always process.wait_signal
    stop s

  unfoldable pub ensure_and_serve : Server K → ℕ → Running (Unit {0})
  ensure_and_serve s listener =
      wrapping (λ _. fatal) s.plugin.bridge_ctlr.ensure_bridge_exists >> serve s listener

  unfoldable pub run : Server K → Running (Unit {0})
  run s = get_listener s >>= ensure_and_serve s

  unfoldable pub log_init : String → String → Running (Unit {0})
  log_init log_dir log_level = do
    attempt (process.make_log_dir log_dir) failed
    -- `path.Join` of a directory without a slash at its end.
    name ← or_throw (process.verified_file_path (log_dir <> "/ipuplugin.log") log_dir) failed
    attempt (process.open_log name) failed
    always (process.set_log_output name)
    level ← or_throw (process.parse_level log_level) failed
    always (process.set_log_level level)
    always (λ k. if level == debug_level then process.set_report_caller k else k)

  abbrev pub run_status : Outcome Halt (Unit {0}) × K → ℕ × K
  run_status (r, k) = (status 4 r, k)

  abbrev pub run_after_log : Settings → Outcome Halt (Unit {0}) → K → ℕ × K
  run_after_log c (ok _) k = run_status (run (new_ipu_plugin c) k)
  run_after_log c (err e) k = (status 3 (err e), k)
  run_after_log c panic k = (status 3 panic, k)

  -- `Execute` with the mode that the flag gave.
  unfoldable pub execute : String → Settings → K → ℕ × K
  execute flag_mode c k =
      if validate_configs flag_mode
      then (let (r, k') = log_init c.log_dir c.verbosity k in run_after_log c r k')
      else (1, k)
