-- ===== src/Tests/DevicePlugin.antt =====
-- The device plugin on a node with two interfaces of the IPU, one of them excluded.
use ipu_opi_plugins.Prelude.{
  suc, ◌≡◌, refl, ℕ, true, none, some, Option, String, List, [], ◌∷◌, ◌==◌, string_eq,
  if◌then◌else◌, contains, ◌&&◌, get_elem?,
}
use ipu_opi_plugins.Outcome.{ok, Attempt}
use ipu_opi_plugins.Dict.{Dict, lookup}
use ipu_opi_plugins.SriovCni.Host.{FilePath, removed}
use ipu_opi_plugins.DevicePlugin.{
  flag_init, get_device_state, Device, DeviceHost, Plugin, listed, new_apf_manager, healthy_device,
  discover_host_devices,
}
use ipu_opi_plugins.DevicePlugin.Start.{
  endpoint_path, stop, start, listen_and_serve, connect_and_serve, serve_and_register,
  test_and_register, register_with,
}
use ipu_opi_plugins.DevicePlugin.Launch.{IsRegistered, start-IsRegistered}
use ipu_opi_plugins.DevicePlugin.Discovery.{offers, discover_host_devices_lem}
use ipu_opi_plugins.DevicePlugin.Watch.{
  watch, refresh, with_healed, list_and_watch, list_and_watch_lem,
}
use ipu_opi_plugins.DevicePlugin.Allocation.{allocate, allocate-envs, envs_of}

-- A text for each file; the state counts the responses.
abbrev file : FilePath → Option String
file (dir ∷ name ∷ rest) = some (if name == "lo" then "" else "0x1452\n")
file _ = some "{}"

abbrev test_host : DeviceHost ℕ
test_host = record {
  read_file = λ k f. file f;
  unmarshal = λ s. some (record { exclude_devices = "ens1f0" ∷ [] });
  read_dir = λ k d. listed ("lo" ∷ "ens1f0" ∷ "ens1f1" ∷ []);
  remove = λ f k. (removed, k);
  sleep = λ k. k;
  listen = λ f k. (some 1, k);
  new_server = λ k. (2, k);
  register_server = λ n sm k. k;
  go_serve = λ n l k. k;
  stop_server = λ n k. k;
  dial = λ f k. (some 3, k);
  dial_blocking = λ f k. (some 4, k);
  close = λ n k. k;
  register = λ n r k. (true, k);
  wait_signal = λ k. k;
}

abbrev fresh : Plugin ℕ
fresh = record { manager = new_apf_manager (flag_init none); node = 0 }

discover_host_devices_lem_example :
    ((discover_host_devices test_host fresh).0 ≡ ok tt)
    × ((key : String)
        → lookup key (discover_host_devices test_host fresh).1.manager.devices ≡ (
            if contains ("lo" ∷ "ens1f0" ∷ "ens1f1" ∷ []) key
              && offers test_host 0 ("ens1f0" ∷ []) key
            then some (healthy_device test_host key)
            else lookup key fresh.manager.devices))
discover_host_devices_lem_example =
    discover_host_devices_lem test_host fresh "{}" ("ens1f0" ∷ []) ("lo" ∷ "ens1f0" ∷ "ens1f1" ∷ [])
      refl refl refl

abbrev sick : Dict Device
sick = ("ens1f1", record { id = "ens1f1"; health = "Unhealthy" }) ∷ []

abbrev watching : Plugin ℕ
watching = record {
  manager = record fresh.manager { devices = sick; grpc_server = some 2 };
  node = 0;
}

abbrev count : List Device → Attempt ℕ
count devices k = (true, suc k)

-- Ten rounds send one response.
ten_rounds : (list_and_watch test_host count 10 watching).1.node ≡ 1
unfolding list_and_watch watch refresh get_device_state string_eq
ten_rounds = refl

list_and_watch_lem_example :
    list_and_watch test_host count 10 watching
    ≡ (none, record { manager = with_healed test_host count watching.manager; node = 1 })
list_and_watch_lem_example = list_and_watch_lem test_host count 9 watching

allocate-envs_example :
    get_elem? (allocate fresh.manager (("a" ∷ []) ∷ ("b" ∷ []) ∷ [])).0 1 ≡ some (envs_of "a,b,")
allocate-envs_example = allocate-envs fresh.manager (("a" ∷ []) ∷ ("b" ∷ []) ∷ []) 1

abbrev started : Plugin ℕ
started = (start test_host fresh).1

start_succeeds : start test_host fresh ≡ (ok tt, started)
unfolding start listen_and_serve connect_and_serve serve_and_register test_and_register
    register_with discover_host_devices
start_succeeds = refl

start-IsRegistered_example :
    (d : Plugin ℕ) × (lis : Option ℕ) × (k1 : ℕ) × (server : ℕ) × (k2 : ℕ) × (discover_host_devices
        test_host fresh
      ≡ (ok tt, d))
    × (test_host.listen (endpoint_path test_host d.manager) d.node ≡ (lis, k1))
    × (test_host.new_server k1 ≡ (server, k2))
    × (started.manager ≡ record d.manager { grpc_server = some server })
    × IsRegistered test_host
        (record d.manager { grpc_server = some server })
        server
        lis
        k2
        started.node
    × ((k : ℕ)
        → (stop test_host (record started { node = k })).1.manager
          ≡ record d.manager { grpc_server = none })
start-IsRegistered_example = start-IsRegistered test_host fresh started tt start_succeeds
