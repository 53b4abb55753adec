-- ===== src/Tests/Server.antt =====
-- The command line of the plugin, with the Linux bridge of a node in memory.
use ipu_opi_plugins.Prelude.{
  ==-refl, ap, subst, Bool, ◌≢◌, if◌then◌else◌, arith, Option, none, ◌≡◌, refl, ◌⊎◌, true, false,
  some, String, List, [], ◌==◌, string_eq, nat_eq,
}
use ipu_opi_plugins.Prelude.Int.{ℤ, pos}
use ipu_opi_plugins.Outcome.{ok, Attempt}
use ipu_opi_plugins.Dict.{lookup, insert}
use ipu_opi_plugins.Netlink.Memory.{Kernel, memory, memory-IsLawful}
use ipu_opi_plugins.SriovCni.Host.{removed}
use ipu_opi_plugins.IpuPlugin.Bridge.Linux.{ensure_bridge_exists}
use ipu_opi_plugins.IpuPlugin.Server.{
  Settings, Process, execute, validate_configs, log_init, run, new_ipu_plugin,
  get_bridge_controller, get_listener, listen_unix, clean_up, ensure_and_serve, serve, stop,
}
use ipu_opi_plugins.IpuPlugin.Server.Flags.{
  Flag, Value, text, number, Viper, flags, flag_list, lookup_flag, init_flags, bind_flags,
  init_config, read_settings,
}
use ipu_opi_plugins.IpuPlugin.Server.Bindings.{
  CommandLine, settings_of, or_else, Gives, SameAt, IsLawful, read_settings-init_flags,
}
use ipu_opi_plugins.IpuPlugin.Server.Launch.{IsLaunched, execute-IsLaunched}

abbrev settings : Settings
settings = record {
  log_dir = "/var/log/ipuplugin";
  verbosity = "debug";
  serving_addr = "/var/run/vendor-plugin.sock";
  serving_proto = "unix";
  port = pos 50152;
  bridge = "br-tenant";
  interface = "eth0";
  ovs_cli_dir = "";
  bridge_type = "linux";
  p4rtbin = "p4rt-ctl";
  port_mux_vsi = pos 10;
  mode = "host";
  daemon_host_ip = "192.168.1.1";
  daemon_ipu_ip = "192.168.1.2";
  daemon_port = pos 50151;
}

abbrev process : Process Kernel
process = record {
  remove = λ f k. (removed, k);
  make_socket_dir = λ f k. (true, k);
  listen = λ p a k. (some 7, k);
  register_services = λ p l k. k;
  go_serve = λ n k. k;
  wait_signal = λ k. k;
  graceful_stop = λ k. k;
  close_listener = λ n k. k;
  make_log_dir = λ d k. (true, k);
  verified_file_path = λ f d. some f;
  open_log = λ f k. (true, k);
  set_log_output = λ f k. k;
  parse_level = λ s. some 5;
  set_log_level = λ n k. k;
  set_report_caller = λ k. k;
}

abbrev no_commands : String → List String → Attempt Kernel
no_commands bin args k = (false, k)

abbrev empty_node : Kernel
empty_node = record { devices = []; next_index = 1 }

abbrev ended : Kernel
ended = (execute memory no_commands process settings.mode settings empty_node).1

ends : execute memory no_commands process settings.mode settings empty_node ≡ (0, ended)
unfolding execute validate_configs log_init run new_ipu_plugin get_bridge_controller get_listener
    listen_unix clean_up ensure_and_serve serve stop ensure_bridge_exists memory lookup insert
    string_eq nat_eq
ends = refl

is_linux : (settings.bridge_type == "ovs") ≡ false
unfolding string_eq
is_linux = refl

execute-IsLaunched_example :
    ((settings.mode ≡ "host") ⊎ (settings.mode ≡ "ipu"))
    × IsLaunched memory-IsLawful no_commands process settings ended
execute-IsLaunched_example =
    execute-IsLaunched memory-IsLawful no_commands process settings.mode settings empty_node ended
      is_linux ends

-- The values of the keys, and a command line with three flags.
record Store : Type 0 where
  texts : String → String
  numbers : String → ℤ

abbrev command_line : CommandLine
command_line = record {
  given_text = λ name.
      if name == "mode"
      then some "ipu"
      else if name == "daemonIpuIp"
      then some "10.0.0.2"
      else none;
  given_number = λ name. if name == "port" then some (pos 50200) else none;
}

abbrev bind_value : String → String → Value → Store → Store
bind_value key name (text d) k = record k {
  texts = λ x. if key == x then or_else (command_line.given_text name) d else k.texts x;
}
bind_value key name (number d) k = record k {
  numbers = λ x. if key == x then or_else (command_line.given_number name) d else k.numbers x;
}

abbrev bind_flag : String → Option Flag → Store → Bool × Store
bind_flag key none k = (false, k)
bind_flag key (some f) k = (true, bind_value key f.name f.default k)

abbrev test_viper : Viper Store
test_viper = record {
  mark_required = λ f k. (true, k);
  bind_p_flag = bind_flag;
  set_config_file = λ f k. k;
  add_config_path = λ f k. k;
  set_config_type = λ f k. k;
  set_config_name = λ f k. k;
  automatic_env = λ k. k;
  read_in_config = λ k. (false, k);
  get_string = λ k name. k.texts name;
  get_int = λ k name. k.numbers name;
}

binds_value :
    (key name : String) (v : Value) (k : Store)
    → Gives test_viper command_line (bind_value key name v k) key name v
binds_value key name (text d) k =
    ap (λ b. if b then or_else (command_line.given_text name) d else k.texts key) (==-refl key)
binds_value key name (number d) k =
    ap (λ b. if b then or_else (command_line.given_number name) d else k.numbers key) (==-refl key)

keeps_value :
    (key other name : String) (v : Value) (k : Store)
    → (key == other) ≡ false
    → SameAt test_viper command_line k (bind_value key name v k) other
keeps_value key other name (text d) k e =
    (ap (λ b. if b then or_else (command_line.given_text name) d else k.texts other) e, refl)
keeps_value key other name (number d) k e =
    (refl, ap (λ b. if b then or_else (command_line.given_number name) d else k.numbers other) e)

keeps_key :
    (key other : String) (flag : Option Flag) (k k' : Store)
    → key ≢ other
    → bind_flag key flag k ≡ (true, k')
    → SameAt test_viper command_line k k' other
keeps_key key other none k k' d h = absurd (ground arith)
keeps_key key other (some f) k k' d h =
    let e : (key == other) ≡ false = ground arith in
    subst (λ j. SameAt test_viper command_line k j other) (ap (λ q. q.1) h)
      (keeps_value key other f.name f.default k e)

test_viper-IsLawful : IsLawful test_viper command_line
test_viper-IsLawful = record {
  binds = λ key f k k' h.
      subst (λ j. Gives test_viper command_line j key f.name f.default) (ap (λ q. q.1) h)
        (binds_value key f.name f.default k);
  keeps = keeps_key;
  by_file = λ f key k. (refl, refl);
  by_path = λ p key k. (refl, refl);
  by_type = λ t key k. (refl, refl);
  by_name = λ n key k. (refl, refl);
  by_env = λ key k. (refl, refl);
  by_config = λ key k. (refl, refl);
}

abbrev unset : Store
unset = record { texts = λ name. ""; numbers = λ name. pos 0 }

abbrev bound : Store
bound = (init_flags test_viper unset).1

binds_all : init_flags test_viper unset ≡ (ok tt, bound)
unfolding init_flags bind_flags flag_list lookup_flag flags string_eq
binds_all = refl

reads_given : (read_settings test_viper bound).daemon_ipu_ip ≡ "10.0.0.2"
unfolding init_flags bind_flags flag_list lookup_flag flags string_eq read_settings
reads_given = refl

read_settings-init_flags_example :
    read_settings test_viper (init_config test_viper "" bound) ≡ settings_of command_line
read_settings-init_flags_example =
    read_settings-init_flags test_viper command_line test_viper-IsLawful "" unset bound binds_all
