-- ===== src/DevicePlugin/Launch.antt =====
-- What a successful `Start` leaves.
use ipu_opi_plugins.Prelude.{
  ℕ, ◌≡◌, refl, sym, ap, ◌∙◌, Bool, true, false, Option, some, ◌∷◌, [], arith, if◌then◌else◌,
}
use ipu_opi_plugins.Outcome.{Outcome, ok, err, Attempt, ◌>>◌}
use ipu_opi_plugins.Outcome.Success.{bind_ok, or_throw_ok}
use ipu_opi_plugins.DevicePlugin.{
  kube_end_point, deprecated_sock_dir, none, not_registered, no_kubelet, no_test_connection,
  ApfManager, DeviceError, DeviceHost, Plugin, Run, discover_host_devices,
}
use ipu_opi_plugins.DevicePlugin.Start.{
  cleanup, stop, request_of, register_with, test_and_register, serve_and_register, deferring,
  connect_and_serve, listen_and_serve, start, on_node, endpoint_path, try_node,
}

abbrev without_server : ApfManager → ApfManager
without_server sm = record sm { grpc_server = none }

module _ {K : Type 0} (host : DeviceHost K) where
  -- What a successful `Start` does behind `NewServer`, from the state `k` to the state `k'`: over a
  -- connection to the kubelet's socket, which is closed at the end, the manager is registered; before
  -- that the server serves it at the listener, and another connection to its own socket was made and
  -- closed.
  pub record IsRegistered (sm : ApfManager) (server : ℕ) (lis : Option ℕ) (k k' : K) : Type 0 where
    pub conn : ℕ
    pub test : ℕ
    pub dialed : K
    pub tried : K
    pub registered : K
    pub dials :
        host.dial ("unix:" ∷ deprecated_sock_dir ∷ kube_end_point ∷ []) k ≡ (some conn, dialed)
    pub tries :
        host.dial_blocking
          ("unix:" ∷ endpoint_path host sm)
          (host.go_serve server lis (host.register_server server sm dialed))
        ≡ (some test, tried)
    pub registers :
        host.register conn (request_of host sm) (host.close test tried) ≡ (true, registered)
    pub closes : k' ≡ host.close conn registered

  -- The test connection and the registration over the connection `conn`.
  record Registers (sm : ApfManager) (conn : ℕ) (k k' : K) : Type 0 where
    test : ℕ
    tried : K
    tries : host.dial_blocking ("unix:" ∷ endpoint_path host sm) k ≡ (some test, tried)
    registers : host.register conn (request_of host sm) (host.close test tried) ≡ (true, k')

  settled :
      (d : Bool) (k : K) (e : DeviceError) (p q : Plugin K) (u : Unit {0})
      → ◌≡◌ {A = Outcome DeviceError (Unit {0}) × Plugin K}
          (if d then ok tt else err e, record p { node = k })
          (ok u, q)
      → (◌≡◌ {A = Bool × K} (d, k) (true, q.node)) × (q.manager ≡ p.manager)
  settled false k e p q u h = ground arith
  settled true k e p q u h = (ap (λ r. (true, r.1.node)) h, sym (ap (λ r. r.1.manager) h))

  try_ok :
      (call : Attempt K) (e : DeviceError) (p q : Plugin K) (u : Unit {0})
      → try_node host call e p ≡ (ok u, q)
      → (call p.node ≡ (true, q.node)) × (q.manager ≡ p.manager)
  try_ok call e p q u h = settled (call p.node).0 (call p.node).1 e p q u h

  test_and_register_ok :
      (conn : ℕ) (p q : Plugin K) (u : Unit {0})
      → test_and_register host conn p ≡ (ok u, q)
      → Registers p.manager conn p.node q.node × (q.manager ≡ p.manager)
  unfolding test_and_register register_with
  test_and_register_ok conn p q u h =
      let (test, k) = host.dial_blocking ("unix:" ∷ endpoint_path host p.manager) p.node in
      let (t, got, rest) =
        or_throw_ok test no_test_connection
          (λ test. on_node host (host.close test) >> register_with host conn)
          (record p { node = k }) q u h in
      let (registered, same) =
        try_ok (host.register conn (request_of host p.manager)) not_registered
          (record p { node = host.close t k }) q u rest in
      (record { test = t; tried = k; tries = ap (λ o. (o, k)) got; registers = registered }, same)

  serve_and_register_ok :
      (server : ℕ) (lis : Option ℕ) (conn : ℕ) (p q : Plugin K) (u : Unit {0})
      → serve_and_register host server lis conn p ≡ (ok u, q)
      → Registers p.manager conn
          (host.go_serve server lis (host.register_server server p.manager p.node))
          q.node
        × (q.manager ≡ p.manager)
  unfolding serve_and_register
  serve_and_register_ok server lis conn p q u h =
      test_and_register_ok conn
        (record p {
          node = host.go_serve server lis (host.register_server server p.manager p.node);
        })
        q u h

  deferring_ok :
      (f : K → K) (m : Run K (Unit {0})) (p q : Plugin K) (u : Unit {0})
      → deferring host f m p ≡ (ok u, q)
      → (r : Plugin K) × (m p ≡ (ok u, r)) × (q.manager ≡ r.manager) × (q.node ≡ f r.node)
  deferring_ok f m p q u h = (
    (m p).1,
    ap (λ r. (r.0, (m p).1)) h,
    sym (ap (λ r. r.1.manager) h),
    sym (ap (λ r. r.1.node) h),
  )

  connect_and_serve_ok :
      (server : ℕ) (lis : Option ℕ) (p q : Plugin K) (u : Unit {0})
      → connect_and_serve host server lis p ≡ (ok u, q)
      → IsRegistered p.manager server lis p.node q.node × (q.manager ≡ p.manager)
  unfolding connect_and_serve
  connect_and_serve_ok server lis p q u h =
      let (answer, k) = host.dial ("unix:" ∷ deprecated_sock_dir ∷ kube_end_point ∷ []) p.node in
      let (conn, got, rest) =
        or_throw_ok answer no_kubelet
          (λ conn. deferring host (host.close conn) (serve_and_register host server lis conn))
          (record p { node = k }) q u h in
      let (r, served, same, closed) =
        deferring_ok (host.close conn) (serve_and_register host server lis conn)
          (record p { node = k }) q u rest in
      let (done, kept) = serve_and_register_ok server lis conn (record p { node = k }) r u served in
      (
        record {
          conn = conn;
          test = done.test;
          dialed = k;
          tried = done.tried;
          registered = r.node;
          dials = ap (λ o. (o, k)) got;
          tries = done.tries;
          registers = done.registers;
          closes = closed;
        },
        same ∙ kept,
      )

  stop_served :
      (p : Plugin K) (server : ℕ)
      → p.manager.grpc_server ≡ some server
      → (stop host p).1.manager ≡ record p.manager { grpc_server = none }
  unfolding stop cleanup
  stop_served p server h = rw h

  -- A successful `Start` has discovered the devices and has set a new server, made behind the
  -- listener for the socket of the manager. In the states behind these, a connection to the
  -- kubelet was made, the server serves the manager, a second connection to the manager's own
  -- socket was made and closed, and over the first one the kubelet took the registration of the
  -- manager with its socket file as the endpoint; then that connection was closed, which is the
  -- state left. `Stop` behind it, in any state of the node, takes the server from the manager and
  -- leaves the devices.
  pub start-IsRegistered :
      (p q : Plugin K) (u : Unit {0})
      → start host p ≡ (ok u, q)
      → (d : Plugin K) × (lis : Option ℕ) × (k1 : K) × (server : ℕ) × (k2 : K)
        × (discover_host_devices host p ≡ (ok tt, d))
        × (host.listen (endpoint_path host d.manager) d.node ≡ (lis, k1))
        × (host.new_server k1 ≡ (server, k2))
        × (q.manager ≡ record d.manager { grpc_server = some server })
        × IsRegistered (record d.manager { grpc_server = some server }) server lis k2 q.node
        × ((k : K)
            → (stop host (record q { node = k })).1.manager
              ≡ record d.manager { grpc_server = none })
  unfolding start listen_and_serve
  start-IsRegistered p q u h =
      let (_, d, found, rest) =
        bind_ok (discover_host_devices host) (λ _. listen_and_serve host) p q u h in
      let (lis, k) = host.listen (endpoint_path host d.manager) d.node in
      let (server, l) = host.new_server k in
      let (registered, same) =
        connect_and_serve_ok server lis
          (record { manager = record d.manager { grpc_server = some server }; node = l }) q u
          rest in
      (
        d,
        lis,
        k,
        server,
        l,
        found,
        refl,
        refl,
        same,
        registered,
        λ k.
            stop_served (record q { node = k }) server (ap (λ m. m.grpc_server) same)
            ∙ ap without_server same,
      )
