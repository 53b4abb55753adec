-- ===== src/Tests/SriovCni.antt =====
-- A node with one physical function and two virtual functions, and the number of one of them.
use ipu_opi_plugins.Prelude.{
  ℕ, zero, suc, ◌<◌, ◌≡◌, refl, ap, sym, ◌∙◌, Bool, true, false, Option, none, some, String, List,
  [], ◌∷◌, arith, ◌==◌, string_eq, nat_eq, if◌then◌else◌, ==-refl,
}
use ipu_opi_plugins.Prelude.Int.{ℤ, pos}
use ipu_opi_plugins.Outcome.{ok}
use ipu_opi_plugins.Text.Space.{trim_space, split}
use ipu_opi_plugins.Text.Decimal.{atoi, format}
use ipu_opi_plugins.SriovCni.Types.{VfInfo}
use ipu_opi_plugins.SriovCni.Host.{FilePath, Stat, there, not_exist, opened, VfLink, Host}
use ipu_opi_plugins.SriovCni.Utils.{base, is_vf, get_sriov_num_vfs, get_vfid, find_vf}
use ipu_opi_plugins.SriovCni.Utils.VfId.{get_vfid_found}
use ipu_opi_plugins.SriovCni.Allocator.Reserve.{ReportsAbsence, KeepsFiles}

unfoldable pub path_dec : Discrete (List String)
path_dec = hlevel string_eq.dec

abbrev pub same_path : FilePath → FilePath → Bool
same_path f g = ◌==◌ ⦃e = record { dec = path_dec }⦄ f g

-- The files, the address of every link, and how often the driver still refuses an address.
pub record Node : Type 0 where
  pub file : FilePath → Option String
  pub mac : List ℕ
  pub busy : ℕ

abbrev pub node_stat : Option String → Stat
node_stat none = not_exist
node_stat (some _) = there

abbrev pub set_mac : List ℕ → ℕ → Node → Bool × Node
set_mac hw zero k = (true, record k { mac = hw })
set_mac hw (suc n) k = (false, record k { busy = n })

abbrev pub vf_info : ℤ → List ℕ → VfInfo
vf_info id mac = record {
  id = id;
  mac = mac;
  vlan = pos 0;
  qos = pos 0;
  vlan_proto = pos 33024;
  spoofchk = false;
  link_state = 0;
  max_tx_rate = 0;
  min_tx_rate = 0;
  trust = 1;
}

abbrev pub vf_link : Node → String → VfLink
vf_link k name = record {
  name = name;
  index = 7;
  hardware_addr = k.mac;
  vfs = vf_info (pos 0) (0 ∷ []) ∷ vf_info (pos 1) k.mac ∷ [];
}

abbrev pub second_vf : FilePath
second_vf = "/sys/class/net" ∷ "ens1" ∷ "device" ∷ "virtfn1" ∷ []

abbrev pub yes_to : Node → Bool × Node
yes_to k = (true, k)

abbrev pub host : Host Node
host = record {
  lstat = λ k f. some true;
  stat = λ k f. node_stat (k.file f);
  read_file = λ k f. k.file f;
  read_link =
      λ k f. some (if same_path f second_vf then "../../0000:03:00.5" else "../../0000:03:00.1");
  read_dir = λ k f. some ("ens1" ∷ []);
  eval_symlinks = λ k f. some f;
  stat_name = λ k f. some "vfio-pci";
  mkdir_all = λ f. yes_to;
  write_file = λ f t k. (true, record k { file = λ g. if same_path f g then some t else k.file g });
  remove = λ f k. (true, record k { file = λ g. if same_path f g then none else k.file g });
  sleep = λ k. k;
  get_ns = λ k ns. opened 4;
  current_ns = λ k. some 3;
  enter = λ fd. yes_to;
  leave = λ k. k;
  link_by_name = λ k name. some (vf_link k name);
  link_set_down = λ l. yes_to;
  link_set_up = λ l. yes_to;
  link_set_name = λ l n. yes_to;
  link_set_ns_fd = λ l fd. yes_to;
  link_set_hardware_addr = λ l hw k. set_mac hw k.busy k;
  link_set_vf_vlan_qos_proto = λ l id vlan qos proto. yes_to;
  link_set_vf_hardware_addr = λ l id hw k. set_mac hw k.busy k;
  link_set_vf_rate = λ l id a b. yes_to;
  link_set_vf_spoofchk = λ l id b. yes_to;
  link_set_vf_trust = λ l id b. yes_to;
  link_set_vf_state = λ l id n. yes_to;
  parse_mac = λ s. if s == "" then none else some (0 ∷ 17 ∷ []);
}

abbrev pub node : Node
node = record {
  file = λ f.
      if same_path f ("/sys/class/net" ∷ "ens1" ∷ "device" ∷ "/sriov_numvfs" ∷ [])
      then some "2\n"
      else none;
  mac = 0 ∷ 1 ∷ [];
  busy = 2;
}

node_stat-none : (o : Option String) → node_stat o ≡ not_exist → o ≡ none
node_stat-none none h = refl
node_stat-none (some t) h = ground arith

same_path_refl : (f : FilePath) → same_path f f ≡ true
same_path_refl f = ==-refl ⦃e = record { dec = path_dec }⦄ f

pub host-ReportsAbsence : ReportsAbsence host (λ k f. k.file f)
host-ReportsAbsence = record {
  stat_not_exist = λ k f h. node_stat-none (k.file f) h;
  remove_leaves = λ f k k' h.
      sym (ap (λ p. p.1.file f) h) ∙ ap (λ b. if b then none else k.file f) (same_path_refl f);
}

pub host-KeepsFiles : KeepsFiles host (λ k f. k.file f)
host-KeepsFiles = record {
  absence = host-ReportsAbsence;
  stat_there = λ k f t h. ground arith;
  read_there = λ k f t h. h;
  read_absent = λ k f h. h;
  write_leaves = λ f t k k' h.
      sym (ap (λ p. p.1.file f) h) ∙ ap (λ b. if b then some t else k.file f) (same_path_refl f);
}

finds_vf : get_vfid host node "0000:03:00.5" "ens1" ≡ ok (pos 1)
unfolding get_vfid find_vf get_sriov_num_vfs base split trim_space atoi format path_dec string_eq
    nat_eq
finds_vf = refl

get_vfid_found_example :
    (n i : ℕ) × (get_sriov_num_vfs host node "ens1" ≡ ok (pos n))
    × (pos 1 ≡ pos i)
    × (i < n)
    × (is_vf host node "0000:03:00.5" "ens1" i ≡ true)
    × ((j : ℕ) → j < i → is_vf host node "0000:03:00.5" "ens1" j ≡ false)
get_vfid_found_example = get_vfid_found host node "0000:03:00.5" "ens1" (pos 1) finds_vf
