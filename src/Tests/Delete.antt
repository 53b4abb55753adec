-- ===== src/Tests/Delete.antt =====
-- `cmdDel` for a pod whose virtual function was given an address.
use ipu_opi_plugins.Prelude.{
  ◌≡◌, ◌≢◌, refl, ap, Bool, true, false, none, some, [], ◌∷◌, arith, ◌==◌, string_eq, nat_eq,
  if◌then◌else◌,
}
use ipu_opi_plugins.Prelude.Int.{pos}
use ipu_opi_plugins.Outcome.{ok, err}
use ipu_opi_plugins.Text.Space.{trim_space, split}
use ipu_opi_plugins.Text.Decimal.{atoi, format}
use ipu_opi_plugins.SriovCni.Host.{FilePath, parse_mac_failed}
use ipu_opi_plugins.SriovCni.Utils.{
  base, get_vfid, find_vf, get_sriov_num_vfs, read_scratch_net_conf, set_vf_hardware_mac,
}
use ipu_opi_plugins.SriovCni.Config.{Json, CmdArgs, load_conf_from_cache}
use ipu_opi_plugins.SriovCni.Sriov.{reset_vf_config}
use ipu_opi_plugins.SriovCni.Command.{Remote, cmd_del}
use ipu_opi_plugins.SriovCni.Command.Delete.{cmd_del-cmd_del}
use ipu_opi_plugins.Tests.SriovCni.{Node, host, node, same_path, path_dec, host-KeepsFiles}
use ipu_opi_plugins.Tests.Config.{loaded}

abbrev pub test_args : CmdArgs
test_args = record {
  container_id = "c1";
  netns = "/run/netns/a";
  if_name = "net1";
  args = "";
  stdin_data = "{}";
}

abbrev pub cache : FilePath
cache = "/var/lib/cni/sriov" ∷ "c1-net1" ∷ []

abbrev cached_node : Node
cached_node = record node { file = λ f. if same_path cache f then some "{}" else node.file f }

abbrev cleaned_node : Node
cleaned_node = record cached_node {
  file = λ f. if same_path cache f then none else cached_node.file f;
}

abbrev json : Json
json = record { unmarshal = λ s. some loaded; marshal = λ n. none }

abbrev pub remote : Remote Node
remote = record {
  exec_del = λ t s k. (true, k);
  dial = λ k a. true;
  delete_bridge_port = λ a n k. (true, k);
}

loads_cache : load_conf_from_cache host json cached_node test_args ≡ ok (loaded, cache)
unfolding load_conf_from_cache read_scratch_net_conf path_dec string_eq
loads_cache = refl

in_pod : test_args.netns ≢ ""
unfolding string_eq
in_pod e = let f : ◌≡◌ {A = Bool} false true = ap (λ s. s == "") e in ground arith

has_vf : get_vfid host cached_node loaded.device_id loaded.master ≡ ok (pos 1)
unfolding get_vfid find_vf get_sriov_num_vfs base split trim_space atoi format path_dec string_eq
    nat_eq
has_vf = refl

cannot_reset : reset_vf_config host loaded cached_node ≡ (err parse_mac_failed, cached_node)
unfolding reset_vf_config set_vf_hardware_mac string_eq
cannot_reset = refl

cmd_del-cmd_del_example :
    (cmd_del host json remote test_args cached_node ≡ (err parse_mac_failed, cleaned_node))
    × (cmd_del host json remote test_args cleaned_node ≡ (ok tt, cleaned_node))
cmd_del-cmd_del_example =
    cmd_del-cmd_del host (λ k f. k.file f) host-KeepsFiles json remote test_args loaded loaded cache
      (pos 1) parse_mac_failed cached_node cached_node cleaned_node refl loads_cache refl in_pod
      has_vf cannot_reset refl
