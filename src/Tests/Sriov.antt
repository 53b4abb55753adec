-- ===== src/Tests/Sriov.antt =====
-- A physical function whose driver sets what it is asked for.
use ipu_opi_plugins.Prelude.{
  ◌≡◌, refl, sym, subst, Bool, true, Option, none, some, List, [], ◌∷◌, ◌==◌, if◌then◌else◌,
  string_eq, nat_eq, arith,
}
use ipu_opi_plugins.Prelude.Int.{ℤ, pos}
use ipu_opi_plugins.Outcome.{ok}
use ipu_opi_plugins.Text.Hardware.{hardware_string}
use ipu_opi_plugins.SriovCni.Types.{VfInfo, NetConf, fill_from_vf_info}
use ipu_opi_plugins.SriovCni.Host.{Host, VfLink, there, opened}
use ipu_opi_plugins.SriovCni.Utils.{retry, retry_behind, try_hardware_mac, set_vf_hardware_mac}
use ipu_opi_plugins.SriovCni.Sriov.{
  get_vf_info, apply_vf_config, reset_vf_config, fill_original_vf_info,
}
use ipu_opi_plugins.SriovCni.Sriov.Entries.{put_vf}
use ipu_opi_plugins.SriovCni.Sriov.Lawful.{IsLawful, IsSetter, as_uint32}
use ipu_opi_plugins.SriovCni.Sriov.Entry.{configured}
use ipu_opi_plugins.SriovCni.Sriov.Reset.{IsReported, recorded, reset-apply, apply_vf_config_lem}
use ipu_opi_plugins.Tests.SriovCni.{vf_info}
use ipu_opi_plugins.Tests.Config.{loaded}

abbrev changed : Option VfInfo → (VfInfo → VfInfo) → ℤ → List VfInfo → List VfInfo
changed none f id vfs = vfs
changed (some w) f id vfs = put_vf id (f w) vfs

abbrev set_vf : ℤ → (VfInfo → VfInfo) → VfLink → Bool × VfLink
set_vf id f k = (true, record k { vfs = changed (get_vf_info k.vfs id) f id k.vfs })

abbrev yes_to : VfLink → Bool × VfLink
yes_to k = (true, k)

-- The state is the link of the physical function.
abbrev test_host : Host VfLink
test_host = record {
  lstat = λ k f. some true;
  stat = λ k f. there;
  read_file = λ k f. none;
  read_link = λ k f. none;
  read_dir = λ k f. none;
  eval_symlinks = λ k f. some f;
  stat_name = λ k f. none;
  mkdir_all = λ f. yes_to;
  write_file = λ f t. yes_to;
  remove = λ f. yes_to;
  sleep = λ k. k;
  get_ns = λ k ns. opened 4;
  current_ns = λ k. some 3;
  enter = λ fd. yes_to;
  leave = λ k. k;
  link_by_name = λ k name. some k;
  link_set_down = λ l. yes_to;
  link_set_up = λ l. yes_to;
  link_set_name = λ l n. yes_to;
  link_set_ns_fd = λ l fd. yes_to;
  link_set_hardware_addr = λ l hw. yes_to;
  link_set_vf_vlan_qos_proto = λ l id vlan qos proto. yes_to;
  link_set_vf_hardware_addr = λ l id hw. set_vf id (λ w. record w { mac = hw });
  link_set_vf_rate = λ l id low high.
      set_vf id (λ w. record w { min_tx_rate = as_uint32 low; max_tx_rate = as_uint32 high });
  link_set_vf_spoofchk = λ l id b. set_vf id (λ w. record w { spoofchk = b });
  link_set_vf_trust = λ l id b. set_vf id (λ w. record w { trust = if b then 1 else 0 });
  link_set_vf_state = λ l id s. set_vf id (λ w. record w { link_state = s });
  parse_mac = λ s. some (if s == "00:01" then 0 ∷ 1 ∷ [] else 0 ∷ 17 ∷ []);
}

set_vf-IsSetter :
    (l : VfLink) (id : ℤ) (f : VfInfo → VfInfo) → IsSetter test_host "ens1" l id f (set_vf id f)
set_vf-IsSetter l id f k now vf h same g =
    let e : k ≡ now = ground arith in
    subst
      (λ j.
        ◌≡◌ {A = Option VfLink}
          (some (record j { vfs = changed (get_vf_info j.vfs id) f id j.vfs }))
          (some (record now { vfs = put_vf id (f vf) now.vfs })))
      (sym e) (rw g)

test_host-IsLawful : IsLawful test_host "ens1"
test_host-IsLawful = record {
  sets_mac = λ l id hw. set_vf-IsSetter l id (λ w. record w { mac = hw });
  sets_rate = λ l id low high.
      set_vf-IsSetter l id
        (λ w. record w { min_tx_rate = as_uint32 low; max_tx_rate = as_uint32 high });
  sets_spoofchk = λ l id b. set_vf-IsSetter l id (λ w. record w { spoofchk = b });
  sets_trust = λ l id b. set_vf-IsSetter l id (λ w. record w { trust = if b then 1 else 0 });
  sets_state = λ l id s. set_vf-IsSetter l id (λ w. record w { link_state = s });
  sleeps = λ k. refl;
}

abbrev second : VfInfo
second = vf_info (pos 1) (0 ∷ 1 ∷ [])

abbrev first_link : VfLink
first_link = record {
  name = "ens1";
  index = 7;
  hardware_addr = 0 ∷ 9 ∷ [];
  vfs = vf_info (pos 0) (0 ∷ []) ∷ second ∷ [];
}

-- The address "00:11", trust and the link state "auto" for the second virtual function.
abbrev set_link : VfLink
set_link = record first_link {
  vfs = vf_info (pos 0) (0 ∷ []) ∷ record second { mac = 0 ∷ 17 ∷ [] } ∷ [];
}

second-IsReported : IsReported test_host second
unfolding hardware_string string_eq nat_eq
second-IsReported = record {
  reads = refl;
  trusts = omega arith;
  low = omega arith;
  high = omega arith;
}

abbrev filled : NetConf
filled = recorded loaded second

fills : fill_original_vf_info test_host first_link loaded ≡ ok filled
unfolding fill_original_vf_info get_vf_info
fills = refl

applies : apply_vf_config test_host filled first_link ≡ (ok tt, set_link)
unfolding apply_vf_config set_vf_hardware_mac retry retry_behind try_hardware_mac get_vf_info put_vf
    hardware_string string_eq nat_eq fill_from_vf_info
applies = refl

resets : reset_vf_config test_host filled set_link ≡ (ok tt, first_link)
unfolding reset_vf_config set_vf_hardware_mac retry retry_behind try_hardware_mac get_vf_info put_vf
    hardware_string string_eq nat_eq fill_from_vf_info
resets = refl

finds : get_vf_info first_link.vfs (pos 1) ≡ some second
unfolding get_vf_info
finds = refl

reset-apply_example : test_host.link_by_name first_link "ens1" ≡ some first_link
reset-apply_example =
    reset-apply test_host loaded filled test_host-IsLawful first_link set_link first_link first_link
      second (ok tt) fills refl finds second-IsReported applies resets

apply_vf_config_lem_example :
    test_host.link_by_name set_link "ens1"
    ≡ some (record first_link {
      vfs = put_vf (pos 1) (configured filled (some (0 ∷ 17 ∷ [])) second) first_link.vfs;
    })
unfolding string_eq
apply_vf_config_lem_example =
    apply_vf_config_lem test_host filled test_host-IsLawful first_link set_link first_link second
      refl finds applies
