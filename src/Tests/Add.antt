-- ===== src/Tests/Add.antt =====
-- `cmdAdd` for a pod that is given an address, and for a device with a driver of user space.
use ipu_opi_plugins.Prelude.{
  ◌≡◌, ◌≢◌, refl, sym, ap, ◌∙◌, arith, Bool, true, false, string_eq, nat_eq, bytes_eq, String, [],
  ◌∷◌, Option, none, some, ◌==◌, if◌then◌else◌,
}
use ipu_opi_plugins.Prelude.Int.{ℤ}
use ipu_opi_plugins.Outcome.{ok}
use ipu_opi_plugins.Text.Space.{trim_space, split}
use ipu_opi_plugins.Text.Decimal.{atoi, format}
use ipu_opi_plugins.Text.Hardware.{hardware_string}
use ipu_opi_plugins.SriovCni.Types.{NetConf, VfState}
use ipu_opi_plugins.SriovCni.Host.{Host, FilePath}
use ipu_opi_plugins.SriovCni.Utils.{
  base, get_sriov_num_vfs, get_vfid, find_vf, get_pf_name, get_vf_link_name, retry, has_dpdk_driver,
  retry_behind, try_effective_mac, try_hardware_mac, set_vf_effective_mac, set_vf_hardware_mac,
  save_scratch_net_conf, enable_arp_and_ndisc_notify,
}
use ipu_opi_plugins.SriovCni.Allocator.{is_allocated, save_allocated_pci}
use ipu_opi_plugins.SriovCni.Config.{
  CmdArgs, Json, to_lower, check_settings, find_interface, get_vf_info, settle, take_device,
  load_conf, load_conf_from_cache, save_net_conf, get_mac_address_for_result,
}
use ipu_opi_plugins.SriovCni.Sriov.{apply_vf_config, setup_vf, move_to_pod, set_up_in_pod}
use ipu_opi_plugins.SriovCni.Packets.{Sockets}
use ipu_opi_plugins.SriovCni.Command.Add.{
  Adding, choose_mac, get_env_args, run_add, apply_config, set_up_and_record, set_up,
  address_and_record, record_and_request, mark_and_request, request_port, parse_and_create,
  create_and_print,
}
use ipu_opi_plugins.SriovCni.Command.Add.Deferred.{cmd_add, add_to, finish_add}
use ipu_opi_plugins.SriovCni.Command.Add.Exclusive.{cmd_add_exclusive}
use ipu_opi_plugins.SriovCni.Command.Add.Loaded.{cmd_add_user_space}
use ipu_opi_plugins.SriovCni.Command.Add.Recording.{Recorded}
use ipu_opi_plugins.SriovCni.Command.Add.Stuck.{cmd_del-cmd_add_stuck}
use ipu_opi_plugins.SriovCni.Command.{cmd_del}
use ipu_opi_plugins.SriovCni.Command.Add.Caching.{
  without_mode, ReadsBack, LeavesFiles, Ran, cmd_add-load_conf_from_cache,
}
use ipu_opi_plugins.Tests.SriovCni.{Node, host, node, same_path, path_dec, host-KeepsFiles}
use ipu_opi_plugins.Tests.Config.{has_mac, no_admin_mac, input, loaded}
use ipu_opi_plugins.Tests.Delete.{test_args, remote, cache}

unfoldable pub int_dec : Discrete ℤ
int_dec = hlevel nat_eq.dec

unfoldable pub state_dec : Discrete VfState
state_dec = hlevel (string_eq.dec, nat_eq.dec, int_dec)

unfoldable pub conf_dec : Discrete NetConf
conf_dec = hlevel (string_eq.dec, int_dec, state_dec)

-- The configuration at the end: the address of the interface is known.
abbrev final : NetConf
final = record loaded { orig_vf_state = record loaded.orig_vf_state { effective_mac = "00:11" } }

abbrev is_final : NetConf → Bool
is_final n = ◌==◌ ⦃e = record { dec = conf_dec }⦄ n final

-- One text for that configuration; every other stands for the input.
abbrev test_json : Json
test_json = record {
  unmarshal = λ s. some (if s == "final" then without_mode final else input);
  marshal = λ n. if is_final n then some "final" else none;
}

written : (n : NetConf) (t : String) → test_json.marshal n ≡ some t → (n ≡ final) × (t ≡ "final")
written n t h = (ground arith, ground arith)

reads_final : (t : String) → t ≡ "final" → test_json.unmarshal t ≡ some (without_mode final)
reads_final t e = ground arith

test_json-ReadsBack : ReadsBack test_json
test_json-ReadsBack n t h =
    let (same, text) = written n t h in
    reads_final t text ∙ ap (λ c. some (without_mode c)) (sym same)

abbrev pub adding : Adding Node
adding = record {
  load_args = λ s. some "";
  exec_add = λ t s k. (none, k);
  new_result_from_result = λ s. none;
  configure_iface = λ n r k. (true, k);
  create_bridge_port = λ a p k. (true, k);
  print_result = λ r v k. (true, k);
}

abbrev pub sockets : Sockets Node
sockets = record {
  socket = λ d t p k. (none, k);
  set_multicast_hops = λ s n k. (true, k);
  send_to = λ s b a k. (true, k);
  close = λ s k. k;
  marshal_advertisement = λ b. none;
}

pub other_file : (pci : String) → same_path ("/var/lib/cni/sriov" ∷ "pci" ∷ pci ∷ []) cache ≡ false
other_file pci = ground arith

abbrev pub content : Node → FilePath → Option String
content k f = k.file f

leaves :
    LeavesFiles host test_json remote adding sockets content host-KeepsFiles test_json-ReadsBack
      test_args
leaves = record {
  by_directory = λ d f k. refl;
  by_lock = λ pci t k. ap (λ b. if b then some t else k.file cache) (other_file pci);
  by_request = λ f a p k. refl;
  by_print = λ f r v k. refl;
}

abbrev added : Node
added = (cmd_add host test_json remote adding sockets test_args node).1

adds : cmd_add host test_json remote adding sockets test_args node ≡ (ok tt, added)
unfolding cmd_add add_to get_env_args choose_mac finish_add run_add apply_config set_up_and_record
    set_up address_and_record record_and_request mark_and_request request_port parse_and_create
    create_and_print save_net_conf save_scratch_net_conf save_allocated_pci apply_vf_config setup_vf
    move_to_pod set_up_in_pod enable_arp_and_ndisc_notify set_vf_effective_mac set_vf_hardware_mac
    try_effective_mac try_hardware_mac retry retry_behind hardware_string get_mac_address_for_result
    load_conf take_device settle find_interface check_settings get_vf_info get_pf_name
    get_vf_link_name is_allocated get_vfid find_vf get_sriov_num_vfs base split trim_space atoi
    format to_lower path_dec string_eq nat_eq conf_dec state_dec int_dec
adds = refl

cmd_add-load_conf_from_cache_example :
    (conf : NetConf) × Ran host test_json remote adding sockets content host-KeepsFiles
      test_json-ReadsBack test_args conf node added
    × (load_conf_from_cache host test_json added test_args ≡ ok (without_mode conf, cache))
    × (added.file ("/var/lib/cni/sriov" ∷ "pci" ∷ conf.device_id ∷ []) ≡ some "/run/netns/a")
    × Recorded host test_json remote adding sockets test_args conf added
cmd_add-load_conf_from_cache_example =
    cmd_add-load_conf_from_cache host test_json remote adding sockets content host-KeepsFiles
      test_json-ReadsBack test_args leaves node added adds

-- Another pod asks for the same device.
abbrev other_args : CmdArgs
other_args = record test_args { container_id = "c2"; netns = "/run/netns/b" }

loads_input : load_conf host test_json "{}" node ≡ (ok loaded, node)
unfolding load_conf take_device settle find_interface check_settings get_vf_info get_pf_name
    get_vf_link_name is_allocated get_vfid find_vf get_sriov_num_vfs base split trim_space atoi
    format to_lower path_dec string_eq nat_eq
loads_input = refl

reads_input : test_json.unmarshal "{}" ≡ some input
unfolding string_eq
reads_input = refl

cmd_add_exclusive_example :
    cmd_add host test_json remote adding sockets other_args added ≢ (ok tt, added)
cmd_add_exclusive_example =
    cmd_add_exclusive host test_json remote adding sockets content host-KeepsFiles
      test_json-ReadsBack test_args leaves other_args node node added added loaded input 4
      loads_input adds refl reads_input refl

-- The device has no interface, and its driver is one for user space.
abbrev user_host : Host Node
user_host = record host {
  read_dir = λ k f.
      if same_path f ("/sys/bus/pci/devices" ∷ "0000:03:00.5" ∷ "net" ∷ [])
      then none
      else some ("ens1" ∷ []);
}

abbrev user_conf : NetConf
user_conf = record loaded {
  dpdk_mode = true;
  orig_vf_state = record loaded.orig_vf_state { host_if_name = "" };
}

loads_user : load_conf user_host test_json "{}" node ≡ (ok user_conf, node)
unfolding load_conf take_device settle find_interface check_settings get_vf_info get_pf_name
    get_vf_link_name has_dpdk_driver is_allocated get_vfid find_vf get_sriov_num_vfs base split
    trim_space atoi format to_lower path_dec string_eq nat_eq
loads_user = refl

no_address : user_host.parse_mac user_conf.orig_vf_state.effective_mac ≡ none
unfolding string_eq
no_address = refl

cmd_add_user_space_example :
    cmd_add user_host test_json remote adding sockets test_args node ≢ (ok tt, node)
cmd_add_user_space_example =
    cmd_add_user_space user_host test_json remote adding sockets test_args node node node user_conf
      loads_user refl no_address

in_pod : test_args.netns ≢ ""
unfolding string_eq
in_pod e = let f : ◌≡◌ {A = Bool} false true = ap (λ s. s == "") e in ground arith

cmd_del-cmd_add_stuck_example : cmd_del host test_json remote test_args added ≢ (ok tt, added)
cmd_del-cmd_add_stuck_example =
    cmd_del-cmd_add_stuck host test_json remote adding sockets content host-KeepsFiles
      test_json-ReadsBack test_args leaves loaded node node added added added loads_input has_mac
      no_admin_mac in_pod adds refl
