-- ===== src/Tests/Undone.antt =====
-- A pod without a MAC address of its own is added and deleted.
use ipu_opi_plugins.Prelude.{
  ◌≡◌, ◌≢◌, ◌⊎◌, refl, sym, ap, ◌∙◌, Bool, true, false, none, some, String, [], ◌∷◌, ◌==◌,
  if◌then◌else◌, string_eq, nat_eq, arith,
}
use ipu_opi_plugins.Outcome.{ok}
use ipu_opi_plugins.Text.Space.{trim_space, split}
use ipu_opi_plugins.Text.Decimal.{atoi, format}
use ipu_opi_plugins.Text.Hardware.{hardware_string}
use ipu_opi_plugins.SriovCni.Types.{NetConf}
use ipu_opi_plugins.SriovCni.Host.{ns_not_exist}
use ipu_opi_plugins.SriovCni.Config.{Json}
use ipu_opi_plugins.SriovCni.Command.{cmd_del}
use ipu_opi_plugins.SriovCni.Command.Add.Deferred.{cmd_add}
use ipu_opi_plugins.SriovCni.Command.Released.{GaveBack}
use ipu_opi_plugins.SriovCni.Command.Add.Recording.{Recorded}
use ipu_opi_plugins.SriovCni.Command.Add.Caching.{without_mode, ReadsBack, LeavesFiles, Ran}
use ipu_opi_plugins.SriovCni.Command.Add.Undone.{LeavesLock, cmd_del-cmd_add}
use ipu_opi_plugins.SriovCni.Utils.{
  base, get_sriov_num_vfs, get_vfid, find_vf, get_pf_name, get_vf_link_name, retry, retry_behind,
  try_effective_mac, try_hardware_mac, set_vf_effective_mac, set_vf_hardware_mac,
  save_scratch_net_conf, enable_arp_and_ndisc_notify,
}
use ipu_opi_plugins.SriovCni.Allocator.{is_allocated, save_allocated_pci}
use ipu_opi_plugins.SriovCni.Config.{
  to_lower, check_settings, find_interface, get_vf_info, settle, take_device, load_conf,
  save_net_conf, get_mac_address_for_result,
}
use ipu_opi_plugins.SriovCni.Sriov.{apply_vf_config, setup_vf, move_to_pod, set_up_in_pod}
use ipu_opi_plugins.SriovCni.Command.Add.{
  choose_mac, get_env_args, run_add, apply_config, set_up_and_record, set_up, address_and_record,
  record_and_request, mark_and_request, request_port, parse_and_create, create_and_print,
}
use ipu_opi_plugins.SriovCni.Command.Add.Deferred.{add_to, finish_add}
use ipu_opi_plugins.SriovCni.Command.{
  run_del, check_and_release, reset_and_release, release_and_give_back, release_from, give_back,
  finish_del, port_name,
}
use ipu_opi_plugins.SriovCni.Sriov.{release_vf, release_in_pod, reset_vf_config}
use ipu_opi_plugins.SriovCni.Allocator.{delete_allocated_pci}
use ipu_opi_plugins.SriovCni.Config.{load_conf_from_cache}
use ipu_opi_plugins.SriovCni.Utils.{read_scratch_net_conf, clean_cached_net_conf}
use ipu_opi_plugins.Tests.SriovCni.{Node, host, node, same_path, path_dec, host-KeepsFiles}
use ipu_opi_plugins.Tests.Config.{input, loaded}
use ipu_opi_plugins.Tests.Delete.{test_args, remote, cache}
use ipu_opi_plugins.Tests.Add.{int_dec, state_dec, conf_dec, adding, sockets, content, other_file}

abbrev plain_input : NetConf
plain_input = record input { mac = ""; trust = ""; link_state = "" }

abbrev final : NetConf
final = record loaded {
  mac = "";
  trust = "";
  link_state = "";
  orig_vf_state = record loaded.orig_vf_state { effective_mac = "00:01" };
}

abbrev is_final : NetConf → Bool
is_final n = ◌==◌ ⦃e = record { dec = conf_dec }⦄ n final

abbrev json : Json
json = record {
  unmarshal = λ s. some (if s == "final" then without_mode final else plain_input);
  marshal = λ n. if is_final n then some "final" else none;
}

written : (n : NetConf) (t : String) → json.marshal n ≡ some t → (n ≡ final) × (t ≡ "final")
written n t h = (ground arith, ground arith)

reads_final : (t : String) → t ≡ "final" → json.unmarshal t ≡ some (without_mode final)
reads_final t e = ground arith

json-ReadsBack : ReadsBack json
json-ReadsBack n t h =
    let (same, text) = written n t h in
    reads_final t text ∙ ap (λ c. some (without_mode c)) (sym same)

leaves :
    LeavesFiles host json remote adding sockets content host-KeepsFiles json-ReadsBack test_args
leaves = record {
  by_directory = λ d f k. refl;
  by_lock = λ pci t k. ap (λ b. if b then some t else k.file cache) (other_file pci);
  by_request = λ f a p k. refl;
  by_print = λ f r v k. refl;
}

not_cache : (pci : String) → same_path cache ("/var/lib/cni/sriov" ∷ "pci" ∷ pci ∷ []) ≡ false
not_cache pci = ground arith

last : LeavesLock host json remote adding sockets content host-KeepsFiles json-ReadsBack test_args
last = record {
  by_deletion = λ f a n k. refl;
  by_cleaning = λ pci k.
      ap (λ b. if b then none else k.file ("/var/lib/cni/sriov" ∷ "pci" ∷ pci ∷ []))
        (not_cache pci);
}

abbrev added : Node
added = (cmd_add host json remote adding sockets test_args node).1

adds : cmd_add host json remote adding sockets test_args node ≡ (ok tt, added)
unfolding cmd_add add_to get_env_args choose_mac finish_add run_add apply_config set_up_and_record
    set_up address_and_record record_and_request mark_and_request request_port parse_and_create
    create_and_print save_net_conf save_scratch_net_conf save_allocated_pci apply_vf_config setup_vf
    move_to_pod set_up_in_pod enable_arp_and_ndisc_notify set_vf_effective_mac set_vf_hardware_mac
    try_effective_mac try_hardware_mac retry retry_behind hardware_string get_mac_address_for_result
    load_conf take_device settle find_interface check_settings get_vf_info get_pf_name
    get_vf_link_name is_allocated get_vfid find_vf get_sriov_num_vfs base split trim_space atoi
    format to_lower path_dec string_eq nat_eq conf_dec state_dec int_dec
adds = refl

abbrev deleted : Node
deleted = (cmd_del host json remote test_args added).1

deletes : cmd_del host json remote test_args added ≡ (ok tt, deleted)
unfolding cmd_add add_to get_env_args choose_mac finish_add run_add apply_config set_up_and_record
    set_up address_and_record record_and_request mark_and_request request_port parse_and_create
    create_and_print save_net_conf save_scratch_net_conf save_allocated_pci apply_vf_config setup_vf
    move_to_pod set_up_in_pod enable_arp_and_ndisc_notify set_vf_effective_mac set_vf_hardware_mac
    try_effective_mac try_hardware_mac retry retry_behind hardware_string get_mac_address_for_result
    load_conf take_device settle find_interface check_settings get_vf_info get_pf_name
    get_vf_link_name is_allocated get_vfid find_vf get_sriov_num_vfs base split trim_space atoi
    format to_lower path_dec string_eq nat_eq conf_dec state_dec int_dec cmd_del
    load_conf_from_cache read_scratch_net_conf run_del check_and_release reset_and_release
    release_and_give_back release_from release_vf release_in_pod reset_vf_config give_back
    delete_allocated_pci finish_del clean_cached_net_conf port_name
deletes = refl

in_pod : test_args.netns ≢ ""
unfolding string_eq
in_pod e = let f : ◌≡◌ {A = Bool} false true = ap (λ s. s == "") e in ground arith

cmd_del-cmd_add_example :
    (conf : NetConf) × Ran host json remote adding sockets content host-KeepsFiles json-ReadsBack
      test_args conf node added
    × Recorded host json remote adding sockets test_args conf added
    × (added.file ("/var/lib/cni/sriov" ∷ "pci" ∷ conf.device_id ∷ []) ≡ some "/run/netns/a")
    × (deleted
        ≡ (clean_cached_net_conf host cache
            (run_del host json remote test_args (without_mode conf) added).1).1)
    × ((host.get_ns (run_del host json remote test_args (without_mode conf) added).1 "/run/netns/a"
          ≡ ns_not_exist)
        ⊎ ((deleted.file ("/var/lib/cni/sriov" ∷ "pci" ∷ conf.device_id ∷ []) ≡ none)
            × GaveBack host json remote test_args
                (without_mode conf)
                (run_del host json remote test_args (without_mode conf) added).1))
cmd_del-cmd_add_example =
    cmd_del-cmd_add host json remote adding sockets content host-KeepsFiles json-ReadsBack test_args
      leaves last node added added deleted in_pod adds refl deletes
