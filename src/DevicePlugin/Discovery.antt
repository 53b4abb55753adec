-- ===== src/DevicePlugin/Discovery.antt =====
-- What `discover_host_devices` finds.
use ipu_opi_plugins.Prelude.{
  ◌≡◌, refl, Bool, not, ◌&&◌, ◌||◌, Option, some, String, List, [], ◌∷◌, ◌==◌, string_eq,
  if◌then◌else◌, contains, arith, ap, ◌∙◌,
}
use ipu_opi_plugins.Outcome.{ok}
use ipu_opi_plugins.Dict.{Dict, lookup, lookup-insert}
use ipu_opi_plugins.DevicePlugin.{
  add_device, Device, DeviceHost, Plugin, healthy_device, is_apf, add_devices, names_of,
  sys_class_net, with_devices, discover_host_devices,
}

module _ {K : Type 0} (host : DeviceHost K) where
  -- The interfaces that are offered: those with the device code that are not excluded.
  abbrev pub offers : K → List String → String → Bool
  offers k excluded name = is_apf host k name && not (contains excluded name)

  lookup-add_device :
      (k : K) (excluded : List String) (name key : String) (devices : Dict Device)
      → lookup key (add_device host k excluded name devices) ≡ (
          if name == key && offers k excluded key
          then some (healthy_device host key)
          else lookup key devices)
  unfolding add_device
  lookup-add_device k excluded name key devices =
      let put = lookup-insert key name (healthy_device host name) devices in ground arith

  both :
      (a b c : Bool) (v w : Option Device)
      → (if b && c then v else (if a && c then v else w)) ≡ (if (a || b) && c then v else w)
  both a b c v w = ground arith

  -- What stands under a name after the loop.
  pub lookup-add_devices :
      (k : K) (excluded names : List String) (devices : Dict Device) (key : String)
      → lookup key (add_devices host k excluded names devices) ≡ (
          if contains names key && offers k excluded key
          then some (healthy_device host key)
          else lookup key devices)
  unfolding add_devices
  lookup-add_devices k excluded [] devices key = refl
  lookup-add_devices k excluded (name ∷ names) devices key =
      lookup-add_devices k excluded names (add_device host k excluded name devices) key
      ∙ rw (lookup-add_device k excluded name key devices) (
          both (name == key) (contains names key) (offers k excluded key)
            (some (healthy_device host key)) (lookup key devices))

  discovers :
      (p : Plugin K) (bytes : String) (excluded names : List String)
      → host.read_file p.node (p.manager.cli_params.config_file ∷ []) ≡ some bytes
      → host.unmarshal bytes ≡ some (record { exclude_devices = excluded })
      → names_of host (host.read_dir p.node sys_class_net) ≡ some names
      → discover_host_devices host p
        ≡ (ok tt, with_devices host (add_devices host p.node excluded names p.manager.devices) p)
  unfolding discover_host_devices
  discovers p bytes excluded names a b c = rw (discover_host_devices, a, b, c) refl

  -- Where the file of exclusions is read and well-formed and the directory of the interfaces
  -- gives names, `discoverHostDevices` succeeds. Then under each name stands a healthy device
  -- with that name if the directory gives the name, its file holds the device code, and it is not
  -- excluded; under every other name stands what was there before.
  pub discover_host_devices_lem :
      (p : Plugin K) (bytes : String) (excluded names : List String)
      → host.read_file p.node (p.manager.cli_params.config_file ∷ []) ≡ some bytes
      → host.unmarshal bytes ≡ some (record { exclude_devices = excluded })
      → names_of host (host.read_dir p.node sys_class_net) ≡ some names
      → ((discover_host_devices host p).0 ≡ ok tt)
        × ((key : String)
            → lookup key (discover_host_devices host p).1.manager.devices ≡ (
                if contains names key && offers p.node excluded key
                then some (healthy_device host key)
                else lookup key p.manager.devices))
  discover_host_devices_lem p bytes excluded names a b c =
      let found = discovers p bytes excluded names a b c in
      (
        ap (λ q. q.0) found,
        λ key.
            ap (λ q. lookup key q.1.manager.devices) found
            ∙ lookup-add_devices p.node excluded names p.manager.devices key,
      )
