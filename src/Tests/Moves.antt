-- ===== src/Tests/Moves.antt =====
-- A node with one link, which is moved to a pod and back.
use ipu_opi_plugins.Prelude.{
  ℕ, ◌≡◌, refl, ap, sym, subst, Bool, true, ◌&&◌, Option, none, some, String, List, [], ◌∷◌, ◌==◌,
  if◌then◌else◌, string_eq, nat_eq, arith,
}
use ipu_opi_plugins.Outcome.{ok}
use ipu_opi_plugins.Text.Decimal.{format}
use ipu_opi_plugins.Text.Hardware.{hardware_string}
use ipu_opi_plugins.SriovCni.Types.{NetConf}
use ipu_opi_plugins.SriovCni.Host.{Host, VfLink, there, opened}
use ipu_opi_plugins.SriovCni.Utils.{
  retry, retry_behind, try_effective_mac, set_vf_effective_mac, enable_arp_and_ndisc_notify,
}
use ipu_opi_plugins.SriovCni.Sriov.{
  setup_vf, move_to_pod, set_up_in_pod, release_vf, release_in_pod, with_effective_mac,
}
use ipu_opi_plugins.SriovCni.Sriov.Entry.{sets, bytes_or}
use ipu_opi_plugins.SriovCni.Sriov.Namespaces.{View, IsLawfulNode}
use ipu_opi_plugins.SriovCni.Sriov.RoundTrip.{release-setup}
use ipu_opi_plugins.Tests.Config.{loaded}

record Node : Type 0 where
  stack : List ℕ
  ns : ℕ
  link : VfLink

abbrev find_link : Node → ℕ → String → Option VfLink
find_link k n name = if n == k.ns && name == k.link.name then some k.link else none

abbrev view : Node → View
view k = record { stack = k.stack; find = find_link k }

abbrev top : List ℕ → ℕ
top [] = 0
top (n ∷ ns) = n

abbrev below : List ℕ → List ℕ
below [] = []
below (n ∷ ns) = ns

abbrev yes_to : Node → Bool × Node
yes_to k = (true, k)

abbrev test_host : Host Node
test_host = record {
  lstat = λ k f. some true;
  stat = λ k f. there;
  read_file = λ k f. none;
  read_link = λ k f. none;
  read_dir = λ k f. none;
  eval_symlinks = λ k f. some f;
  stat_name = λ k f. none;
  mkdir_all = λ f. yes_to;
  write_file = λ f t. yes_to;
  remove = λ f. yes_to;
  sleep = λ k. k;
  get_ns = λ k ns. opened 4;
  current_ns = λ k. some (top k.stack);
  enter = λ fd k. (true, record k { stack = fd ∷ k.stack });
  leave = λ k. record k { stack = below k.stack };
  link_by_name = λ k name. find_link k (top k.stack) name;
  link_set_down = λ l. yes_to;
  link_set_up = λ l. yes_to;
  link_set_name = λ l new k. (true, record k { link = record k.link { name = new } });
  link_set_ns_fd = λ l fd k. (true, record k { ns = fd });
  link_set_hardware_addr =
      λ l hw k. (true, record k { link = record k.link { hardware_addr = hw } });
  link_set_vf_vlan_qos_proto = λ l id vlan qos proto. yes_to;
  link_set_vf_hardware_addr = λ l id hw. yes_to;
  link_set_vf_rate = λ l id low high. yes_to;
  link_set_vf_spoofchk = λ l id b. yes_to;
  link_set_vf_trust = λ l id b. yes_to;
  link_set_vf_state = λ l id s. yes_to;
  parse_mac = λ s. some (if s == "00:01" then 0 ∷ 1 ∷ [] else 0 ∷ 17 ∷ []);
}

found_link :
    (k : Node) (n : ℕ) (name : String) (l : VfLink)
    → find_link k n name ≡ some l
    → (n ≡ k.ns) × (name ≡ k.link.name) × (k.link ≡ l)
found_link k n name l h = (ground arith, ground arith, ground arith)

finds_link : (k : Node) (l : VfLink) → k.link ≡ l → find_link k k.ns k.link.name ≡ some l
finds_link k l e = ground arith

test_host-IsLawfulNode : IsLawfulNode test_host view
test_host-IsLawfulNode = record {
  looks_up = λ k n ns name h. ap (λ s. find_link k (top s) name) h;
  current = λ k n ns h. ap (λ s. some (top s)) h;
  enters = λ fd k h. refl;
  leaves = λ k n ns h. ap (λ s. record (view k) { stack = below s }) h;
  sleeps = λ k. refl;
  writes = λ f t k. refl;
  downs = λ l k. refl;
  ups = λ l k. refl;
  renames = λ l new k p ns here same at done.
      let (e, _, f) = found_link k p.ns p.name p.link at.1 in
      (
        at.0,
        subst
            (λ m.
              find_link (test_host.link_set_name l new k).1 m new
              ≡ some (record p.link { name = new }))
            (sym e)
            (finds_link (test_host.link_set_name l new k).1 (record p.link { name = new })
              (ap (λ (x : VfLink). record x { name = new }) f)),
      );
  moves = λ l fd k p ns here same at done.
      let (_, e, f) = found_link k p.ns p.name p.link at.1 in
      (
        at.0,
        subst (λ m. find_link (test_host.link_set_ns_fd l fd k).1 fd m ≡ some p.link) (sym e)
            (finds_link (test_host.link_set_ns_fd l fd k).1 p.link f),
      );
  sets_address = λ l hw k p ns here same at.
      let (e, g, f) = found_link k p.ns p.name p.link at.1 in
      (
        at.0,
        subst
            (λ m.
              find_link (test_host.link_set_hardware_addr l hw k).1 m p.name
              ≡ some (record p.link { hardware_addr = hw }))
            (sym e)
            (subst
              (λ m.
                find_link (test_host.link_set_hardware_addr l hw k).1 k.ns m
                ≡ some (record p.link { hardware_addr = hw }))
              (sym g)
              (finds_link (test_host.link_set_hardware_addr l hw k).1
                (record p.link { hardware_addr = hw })
                (ap (λ (x : VfLink). record x { hardware_addr = hw }) f))),
      );
}

abbrev first_link : VfLink
first_link = record { name = "ens1"; index = 7; hardware_addr = 0 ∷ 1 ∷ []; vfs = [] }

abbrev first_node : Node
first_node = record { stack = 3 ∷ []; ns = 3; link = first_link }

abbrev in_pod_node : Node
in_pod_node = record first_node {
  ns = 4;
  link = record first_link { name = "net1"; hardware_addr = 0 ∷ 17 ∷ [] };
}

abbrev conf1 : NetConf
conf1 = with_effective_mac test_host first_link loaded

sets_up : setup_vf test_host "net1" 4 (first_node, loaded) ≡ (ok tt, (in_pod_node, conf1))
unfolding setup_vf move_to_pod set_up_in_pod set_vf_effective_mac retry retry_behind
    try_effective_mac enable_arp_and_ndisc_notify hardware_string string_eq nat_eq format
sets_up = refl

releases : release_vf test_host conf1 "net1" 4 in_pod_node ≡ (ok tt, first_node)
unfolding release_vf release_in_pod set_vf_effective_mac retry retry_behind try_effective_mac
    hardware_string string_eq nat_eq
releases = refl

at_first : find_link first_node 3 "ens1" ≡ some first_link
unfolding string_eq nat_eq
at_first = refl

reads :
    test_host.parse_mac (hardware_string first_link.hardware_addr) ≡ some first_link.hardware_addr
unfolding hardware_string string_eq nat_eq
reads = refl

release-setup_example :
    (find_link in_pod_node 4 "net1"
      ≡ some (record first_link {
        name = "net1";
        hardware_addr =
            if sets loaded.mac
            then bytes_or (test_host.parse_mac loaded.mac) first_link.hardware_addr
            else first_link.hardware_addr;
      }))
    × (conf1.orig_vf_state.effective_mac ≡ hardware_string first_link.hardware_addr)
    × (find_link first_node 3 "ens1" ≡ some first_link)
    × (first_node.stack ≡ 3 ∷ [])
release-setup_example =
    release-setup test_host view loaded conf1 "net1" 4 3 [] first_link test_host-IsLawfulNode
      first_node in_pod_node first_node refl at_first refl reads sets_up releases
