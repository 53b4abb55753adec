-- ===== src/DevicePlugin/Start.antt =====
-- `Start`, `Stop`, `cleanup` and `main` of ipu-device-plugin/cmd/ipu-dp/main.go.
use ipu_opi_plugins.Prelude.{ℕ, Option, none, some, String, [], ◌∷◌, if◌then◌else◌}
use ipu_opi_plugins.Outcome.{or_throw, Outcome, ok, err, panic, Attempt, modify, ◌>>=◌, ◌>>◌}
use ipu_opi_plugins.SriovCni.Host.{FilePath, Removal, removed, nothing_there, remove_error}
use ipu_opi_plugins.DevicePlugin.{
  kube_end_point, deprecated_sock_dir, flag_init, resource_name, cleanup_failed, no_kubelet,
  no_test_connection, not_registered, ApfManager, DeviceError, DeviceHost, Plugin, Run,
  RegisterRequest, discover_host_devices, new_apf_manager, device_plugin_path,
}

module _ {K : Type 0} (host : DeviceHost K) where
  abbrev pub on_node : (K → K) → Run K (Unit {0})
  on_node f = modify (λ p. record p { node = f p.node })

  abbrev pub ask_node : {A : Type 0} → (K → A × K) → Run K A
  ask_node f p = let (a, k) = f p.node in (ok a, record p { node = k })

  abbrev pub try_node : Attempt K → DeviceError → Run K (Unit {0})
  try_node call e p =
      let (done, k) = call p.node in (if done then ok tt else err e, record p { node = k })

  -- An address `unix:` with a path behind it is the list of both.
  abbrev pub endpoint_path : ApfManager → FilePath
  endpoint_path sm = device_plugin_path ∷ sm.socket_file ∷ []

  abbrev pub of_removal : Removal → Outcome DeviceError (Unit {0})
  of_removal removed = ok tt
  of_removal nothing_there = ok tt
  of_removal remove_error = err cleanup_failed

  unfoldable pub cleanup : Run K (Unit {0})
  cleanup p =
      let (r, k) = host.remove (endpoint_path p.manager) p.node in
      (of_removal r, record p { node = k })

  abbrev pub set_server : Option ℕ → Run K (Unit {0})
  set_server server = modify (λ p. record p { manager = record p.manager { grpc_server = server } })

  abbrev pub request_of : ApfManager → RegisterRequest
  request_of sm = record {
    version = "v1beta1";
    endpoint = sm.socket_file;
    resource_name = resource_name;
  }

  unfoldable pub register_with : ℕ → Run K (Unit {0})
  register_with conn p = try_node (host.register conn (request_of p.manager)) not_registered p

  -- A connection for a test, and the registration.
  unfoldable pub test_and_register : ℕ → Run K (Unit {0})
  test_and_register conn p =
      (do
        test ← ask_node (host.dial_blocking ("unix:" ∷ endpoint_path p.manager))
        test ← or_throw test no_test_connection
        on_node (host.close test)
        register_with conn)
        p

  -- `Start` behind the connection to the kubelet, up to the deferred close of that connection.
  unfoldable pub serve_and_register : ℕ → Option ℕ → ℕ → Run K (Unit {0})
  serve_and_register server lis conn p =
      (do
        on_node (host.register_server server p.manager)
        on_node (host.go_serve server lis)
        test_and_register conn)
        p

  abbrev pub deferring : (K → K) → Run K (Unit {0}) → Run K (Unit {0})
  deferring f m p = let (r, q) = m p in (r, record q { node = f q.node })

  unfoldable pub connect_and_serve : ℕ → Option ℕ → Run K (Unit {0})
  connect_and_serve server lis = do
    conn ← ask_node (host.dial ("unix:" ∷ deprecated_sock_dir ∷ kube_end_point ∷ []))
    conn ← or_throw conn no_kubelet
    deferring (host.close conn) (serve_and_register server lis conn)

  -- `Start` behind the discovery; a listener that could not be made is only printed.
  unfoldable pub listen_and_serve : Run K (Unit {0})
  listen_and_serve = do
    lis ← (λ p. ask_node (host.listen (endpoint_path p.manager)) p)
    server ← ask_node host.new_server
    set_server (some server)
    connect_and_serve server lis

  unfoldable pub start : Run K (Unit {0})
  start = discover_host_devices host >> listen_and_serve

  unfoldable pub stop : Run K (Unit {0})
  stop p = elim p.manager.grpc_server [
    | none ↦ (ok tt, p)
    | some server ↦ (do on_node (host.stop_server server); set_server none; cleanup) p
  ]

  -- `main` with the flag of the command line: the answers of `cleanup` and of `Stop` are not read.
  unfoldable pub run_main : Option String → K → Plugin K
  run_main given k =
      let (_, p) = cleanup (record { manager = new_apf_manager (flag_init given); node = k }) in
      let (r, q) = start p in
      elim r as (λ _. Plugin K) [
        | ok _ ↦ (stop (record q { node = host.wait_signal q.node })).1
        | err _ ↦ q
        | panic ↦ q
      ]
