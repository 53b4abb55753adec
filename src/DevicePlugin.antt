-- ===== src/DevicePlugin.antt =====
-- The device plugin of ipu-device-plugin/cmd/ipu-dp/main.go: it finds the interfaces of the node
-- that have the device code of the IPU, and offers them to the kubelet. The node, the kubelet and
-- the package `grpc` are the fields of `DeviceHost` over an unknown state `K`.
pub mod Discovery
pub mod Watch
pub mod Allocation
pub mod Start
pub mod Launch
use ipu_opi_plugins.Prelude.{
  ℕ, Bool, true, false, not, Option, none, some, String, ◌<>◌, List, [], ◌∷◌, ◌==◌, string_eq,
  if◌then◌else◌, contains,
}
use ipu_opi_plugins.Outcome.{
  or_throw, Outcome, ok, err, panic, Action, Attempt, pure, throw, modify, attempt, ◌>>=◌, ◌>>◌,
}
use ipu_opi_plugins.Dict.{Dict, lookup, insert}
use ipu_opi_plugins.Text.Space.{trim_space}
use ipu_opi_plugins.SriovCni.Host.{FilePath, Removal, removed, nothing_there, remove_error}

abbrev pub healthy : String
healthy = "Healthy"

abbrev pub sys_class_net : String
sys_class_net = "/sys/class/net"

abbrev pub device_code : String
device_code = "0x1452"

abbrev pub exclude_file_path : String
exclude_file_path = "/etc/ipu-dp/config.json"

abbrev pub plugin_endpoint : String
plugin_endpoint = "sriovNet.sock"

abbrev pub resource_name : String
resource_name = "intel.com/ipu"

-- Of ipu-device-plugin/pkg/types/types.go.
abbrev pub deprecated_sock_dir : String
deprecated_sock_dir = "/var/lib/kubelet/device-plugins"

abbrev pub kube_end_point : String
kube_end_point = "kubelet.sock"

pub record ExcludeConfig : Type 0 where
  pub exclude_devices : List String

abbrev pub device_plugin_path : String
device_plugin_path = "/var/lib/kubelet/device-plugins/"

-- `pluginapi.Device`
pub record Device : Type 0 where
  pub id : String
  pub health : String

pub record CliParams : Type 0 where
  pub config_file : String

-- The flag `config-file`, which the package `flag` finds on the command line or not.
unfoldable pub flag_init : Option String → CliParams
flag_init none = record { config_file = exclude_file_path }
flag_init (some given) = record { config_file = given }

-- `pluginapi.DevicePluginOptions`
record DevicePluginOptions : Type 0 where
  pre_start_required : Bool

abbrev get_device_plugin_options : DevicePluginOptions
get_device_plugin_options = record { pre_start_required = false }

-- `apfManager`; a server is known by a number.
pub record ApfManager : Type 0 where
  pub cli_params : CliParams
  pub socket_file : String
  pub devices : Dict Device
  pub grpc_server : Option ℕ

unfoldable pub new_apf_manager : CliParams → ApfManager
new_apf_manager cp = record {
  cli_params = cp;
  socket_file = plugin_endpoint;
  devices = [];
  grpc_server = none;
}

pub record RegisterRequest : Type 0 where
  pub version : String
  pub endpoint : String
  pub resource_name : String

-- `os.ReadDir`: after another error there are the names that were read until then.
pub data Listing : Type 0 where
  listed : List String → Listing
  no_directory : Listing
  broken_off : List String → Listing

pub record DeviceHost (K : Type 0) : Type 0 where
  pub read_file : K → FilePath → Option String
  -- `json.Unmarshal` into an `ExcludeConfig`
  pub unmarshal : String → Option ExcludeConfig
  pub read_dir : K → String → Listing
  pub remove : FilePath → K → Removal × K
  pub sleep : K → K
  -- A connection or a listener that could not be made is `none`.
  pub listen : FilePath → K → Option ℕ × K
  pub new_server : K → ℕ × K
  pub register_server : ℕ → ApfManager → K → K
  pub go_serve : ℕ → Option ℕ → K → K
  pub stop_server : ℕ → K → K
  pub dial : FilePath → K → Option ℕ × K
  pub dial_blocking : FilePath → K → Option ℕ × K
  pub close : ℕ → K → K
  pub register : ℕ → RegisterRequest → Attempt K
  -- Waits for a signal that ends the process.
  pub wait_signal : K → K

pub data DeviceError : Type 0 where
  config_unreadable config_malformed send_failed cleanup_failed : DeviceError
  no_kubelet no_test_connection not_registered : DeviceError

-- The manager and the node.
pub record Plugin (K : Type 0) : Type 0 where
  pub manager : ApfManager
  pub node : K

abbrev pub Run : Type 0 → Type 0 → Type 0
Run K A = Action (Plugin K) DeviceError A

-- `GetDeviceState`
unfoldable pub get_device_state : String → String
get_device_state device_name = healthy

module _ {K : Type 0} (host : DeviceHost K) where
  abbrev pub code_path : String → FilePath
  code_path name = sys_class_net ∷ name ∷ "device/device" ∷ []

  -- A file that cannot be read leaves the bytes empty.
  abbrev pub content_or_empty : Option String → String
  content_or_empty none = ""
  content_or_empty (some bytes) = bytes

  unfoldable pub is_apf : K → String → Bool
  is_apf k name = trim_space (content_or_empty (host.read_file k (code_path name))) == device_code

  abbrev pub healthy_device : String → Device
  healthy_device name = record { id = name; health = healthy }

  -- One turn of the loop of `discoverHostDevices`.
  unfoldable pub add_device : K → List String → String → Dict Device → Dict Device
  add_device k excluded name devices =
      if is_apf k name
      then (if not (contains excluded name)
          then insert name (healthy_device name) devices
          else devices)
      else devices

  unfoldable pub add_devices : K → List String → List String → Dict Device → Dict Device
  add_devices k excluded [] devices = devices
  add_devices k excluded (name ∷ names) devices =
      add_devices k excluded names (add_device k excluded name devices)

  -- The names that the loop runs over, or none where the function ends before it.
  abbrev pub names_of : Listing → Option (List String)
  names_of (listed names) = some names
  names_of no_directory = none
  names_of (broken_off names) = some names

  abbrev pub with_devices : Dict Device → Plugin K → Plugin K
  with_devices devices p = record p { manager = record p.manager { devices = devices } }

  unfoldable pub discover_host_devices : Run K (Unit {0})
  discover_host_devices p = elim (host.read_file p.node (p.manager.cli_params.config_file ∷ [])) [
    | none ↦ throw config_unreadable p
    | some bytes ↦ elim (host.unmarshal bytes) [
      | none ↦ throw config_malformed p
      | some exclude_config ↦ elim (names_of (host.read_dir p.node sys_class_net)) [
        | none ↦ (ok tt, p)
        | some names ↦ (
          ok tt,
          with_devices (add_devices p.node exclude_config.exclude_devices names p.manager.devices)
              p,
        )
      ]
    ]
  ]
