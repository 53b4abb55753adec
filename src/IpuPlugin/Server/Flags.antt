-- ===== src/IpuPlugin/Server/Flags.antt =====
-- The flags of ipu-plugin/ipuplugin/cmd/rootcmd.go and the settings that are read behind them. The
-- packages `cobra` and `viper` are the fields of `Viper`.
use ipu_opi_plugins.Prelude.{
  ℕ, Option, none, some, String, List, [], ◌∷◌, ◌==◌, string_eq, if◌then◌else◌,
}
use ipu_opi_plugins.Prelude.Int.{ℤ, pos}
use ipu_opi_plugins.Outcome.{ok, err, panic, Action, Attempt, attempt, ◌>>◌}
use ipu_opi_plugins.Netlink.{Netlink}
use ipu_opi_plugins.IpuPlugin.Server.{Settings, Process, Halt, failed, execute}

abbrev pub default_log_dir : String
default_log_dir = "/var/log/ipuplugin"

abbrev pub default_serving_addr : String
default_serving_addr = "/var/run/vendor-plugin.sock"

abbrev pub default_serving_proto : String
default_serving_proto = "unix"

abbrev pub tenant_bridge_name : String
tenant_bridge_name = "br-tenant"

abbrev pub default_ovs_cli_dir : String
default_ovs_cli_dir = "/opt/p4/p4-cp-nws/bin"

abbrev pub default_bridge : String
default_bridge = "linux"

abbrev pub default_p4rt_bin : String
default_p4rt_bin = "/opt/p4/p4-cp-nws/bin/p4rt-ctl"

abbrev pub default_daemon_host_ip : String
default_daemon_host_ip = "192.168.1.1"

abbrev pub default_daemon_ipu_ip : String
default_daemon_ipu_ip = "192.168.1.2"

abbrev pub config_file_path : String
config_file_path = "/etc/ipu/"

abbrev pub default_serving_port : ℕ
default_serving_port = 50152

abbrev pub default_port_mux_vsi : ℕ
default_port_mux_vsi = 0x0a

abbrev pub default_daemon_port : ℕ
default_daemon_port = 50151

pub data Value : Type 0 where
  text : String → Value
  number : ℤ → Value

pub record Flag : Type 0 where
  pub name : String
  pub default : Value

-- The calls of `StringVar` and `IntVar`.
unfoldable pub flags : List Flag
flags =
    record { name = "config"; default = text "" }
    ∷ record { name = "logDir"; default = text default_log_dir }
    ∷ record { name = "port"; default = number (pos default_serving_port) }
    ∷ record { name = "servingAddr"; default = text default_serving_addr }
    ∷ record { name = "servingProto"; default = text default_serving_proto }
    ∷ record { name = "interface"; default = text "" }
    ∷ record { name = "bridge"; default = text tenant_bridge_name }
    ∷ record { name = "ovsCliDir"; default = text default_ovs_cli_dir }
    ∷ record { name = "bridgeType"; default = text default_bridge }
    ∷ record { name = "p4rtbin"; default = text default_p4rt_bin }
    ∷ record { name = "portMuxVsi"; default = number (pos default_port_mux_vsi) }
    ∷ record { name = "verbosity"; default = text "info" }
    ∷ record { name = "mode"; default = text "" }
    ∷ record { name = "daemonHostIp"; default = text default_daemon_host_ip }
    ∷ record { name = "daemonIpuIp"; default = text default_daemon_ipu_ip }
    ∷ record { name = "daemonPort"; default = number (pos default_daemon_port) }
    ∷ []

unfoldable pub flag_list : List String
flag_list =
    "logDir" ∷ "port" ∷ "servingAddr" ∷ "servingProto" ∷ "interface" ∷ "bridge" ∷ "ovsCliDir"
    ∷ "bridgeType" ∷ "p4rtbin" ∷ "portMuxVsi" ∷ "verbosity" ∷ "mode" ∷ "daemonHostIp"
    ∷ "daemonIpuIp" ∷ "daemonPort" ∷ []

-- `Lookup`: nil where no flag has the name.
unfoldable pub lookup_flag : String → List Flag → Option Flag
lookup_flag name [] = none
lookup_flag name (f ∷ fs) = if f.name == name then some f else lookup_flag name fs

pub record Viper (K : Type 0) : Type 0 where
  pub mark_required : String → Attempt K
  pub bind_p_flag : String → Option Flag → Attempt K
  pub set_config_file : String → K → K
  pub add_config_path : String → K → K
  pub set_config_type : String → K → K
  pub set_config_name : String → K → K
  pub automatic_env : K → K
  pub read_in_config : Attempt K
  pub get_string : K → String → String
  pub get_int : K → String → ℤ

module _ {K : Type 0} (viper : Viper K) where
  unfoldable pub bind_flags : List String → Action K Halt (Unit {0})
  bind_flags [] k = (ok tt, k)
  bind_flags (f ∷ fs) k =
      (attempt (viper.bind_p_flag f (lookup_flag f flags)) failed >> bind_flags fs) k

  -- `init` of the package.
  unfoldable pub init_flags : Action K Halt (Unit {0})
  init_flags = attempt (viper.mark_required "mode") failed >> bind_flags flag_list

  -- A file that cannot be read is left out.
  unfoldable pub init_config : String → K → K
  init_config cfg_file k =
      let located =
        (if cfg_file == ""
          then viper.set_config_name "ipuplugin.yaml"
              (viper.set_config_type "yaml" (viper.add_config_path config_file_path k))
          else viper.set_config_file cfg_file k) in
      (viper.read_in_config (viper.automatic_env located)).1

  unfoldable pub read_settings : K → Settings
  read_settings k = record {
    log_dir = viper.get_string k "logDir";
    verbosity = viper.get_string k "verbosity";
    serving_addr = viper.get_string k "servingAddr";
    serving_proto = viper.get_string k "servingProto";
    port = viper.get_int k "port";
    bridge = viper.get_string k "bridge";
    interface = viper.get_string k "interface";
    ovs_cli_dir = viper.get_string k "ovsCliDir";
    bridge_type = viper.get_string k "bridgeType";
    p4rtbin = viper.get_string k "p4rtbin";
    port_mux_vsi = viper.get_int k "portMuxVsi";
    mode = viper.get_string k "mode";
    daemon_host_ip = viper.get_string k "daemonHostIp";
    daemon_ipu_ip = viper.get_string k "daemonIpuIp";
    daemon_port = viper.get_int k "daemonPort";
  }

  -- The process from `init` of the package on, with the texts that the command line gives.
  unfoldable pub run_command_line :
      Netlink K → (String → List String → Attempt K) → Process K → String → String → K → ℕ × K
  run_command_line netlink run_command process cfg_file mode k =
      let (r, k1) = init_flags k in
      let k2 = init_config cfg_file k1 in
      elim r as (λ _. ℕ × K) [
        | ok _ ↦ execute netlink run_command process mode (read_settings k2) k2
        | err _ ↦ (1, k1)
        | panic ↦ (2, k1)
      ]
