-- ===== src/SriovCni/Command/Add/Recording.antt =====
-- What a `cmd_add` that succeeded did, from its last step back to its first.
use ipu_opi_plugins.Prelude.{ℕ, ◌≡◌, refl, sym, ap, true, not, some, List, string_eq, nat_eq}
use ipu_opi_plugins.Outcome.{Outcome, ok, err, panic, Action, map_err, ◌>>◌}
use ipu_opi_plugins.Outcome.Success.{err-ne-ok, panic-ne-ok, attempt_ok, or_throw_ok, throw_if_ok}
use ipu_opi_plugins.SriovCni.Types.{NetConf}
use ipu_opi_plugins.SriovCni.Host.{Host, CniError}
use ipu_opi_plugins.SriovCni.Utils.{Cni}
use ipu_opi_plugins.SriovCni.Packets.{Sockets}
use ipu_opi_plugins.SriovCni.Allocator.{new_pci_allocator, save_allocated_pci}
use ipu_opi_plugins.SriovCni.Config.{Json, CmdArgs, save_net_conf, default_cni_dir}
use ipu_opi_plugins.SriovCni.Command.{rpc_failed, dial_failed, Remote, create_request}
use ipu_opi_plugins.SriovCni.Command.Add.{
  print_failed, parse_mac_failed, print, create_port, create_and_print, mark_and_request,
  parse_and_create, Adding, CniResult, AddFailure, seen, unseen, on_node, cache_conf, mark_pci,
  request_port, record_and_request,
}

module _ {K : Type 0} (host : Host K) (json : Json) (remote : Remote K) (adding : Adding K)
    (sockets : Sockets K) (args : CmdArgs) where
  -- The configuration was cached, then the device was marked with the namespace, and then the
  -- service at the address of the configuration created the port with the interface's address.
  pub record Recorded (conf : NetConf) (k' : K) : Type 0 where
    pub before : K
    pub cached : K
    pub marked : K
    pub created : K
    pub mac : List ℕ
    pub result : CniResult
    pub caches :
        save_net_conf host json args.container_id default_cni_dir args.if_name conf before
        ≡ (ok tt, cached)
    pub marks :
        save_allocated_pci host (new_pci_allocator default_cni_dir) conf.device_id args.netns cached
        ≡ (ok tt, marked)
    pub parses : host.parse_mac conf.orig_vf_state.effective_mac ≡ some mac
    pub creates :
        adding.create_bridge_port conf.dpu_daemon_address (create_request conf mac) marked
        ≡ (true, created)
    pub prints : adding.print_result result conf.cni_version created ≡ (true, k')

  abbrev pub Step : Type 0
  Step = Action (K × NetConf) AddFailure (Unit {0})

  -- A step that succeeds from a configuration leaves it as it was, and records it.
  abbrev pub Records : NetConf → Step → Type 0
  Records conf m =
      (u : Unit {0}) (k k' : K) (conf' : NetConf)
      → m (k, conf) ≡ (ok u, (k', conf'))
      → (conf' ≡ conf) × Recorded conf k'

  last_of :
      (w : CniError → AddFailure) (q : Outcome CniError (Unit {0}) × K) (k' : K)
      (conf conf' : NetConf) (u : Unit {0})
      → ◌≡◌ {A = Outcome AddFailure (Unit {0}) × (K × NetConf)}
          (map_err w q.0, (q.1, conf))
          (ok u, (k', conf'))
      → (conf' ≡ conf) × (q ≡ (ok u, k'))
  last_of w (ok v, t) k' conf conf' u h = (sym (ap (λ q. q.1.1) h), ap (λ q. (ok v, q.1.0)) h)
  last_of w (err e, t) k' conf conf' u h = absurd (err-ne-ok (ap (λ q. q.0) h))
  last_of w (panic, t) k' conf conf' u h = absurd (panic-ne-ok (ap (λ q. q.0) h))

  on_node_last :
      (w : CniError → AddFailure) (m : NetConf → Cni host (Unit {0})) (k k' : K)
      (conf conf' : NetConf) (u : Unit {0})
      → on_node host json remote adding sockets w m (k, conf) ≡ (ok u, (k', conf'))
      → (conf' ≡ conf) × (m conf k ≡ (ok u, k'))
  on_node_last w m k k' conf conf' u h = last_of w (m conf k) k' conf conf' u h

  next_of :
      (w : CniError → AddFailure) (q : Outcome CniError (Unit {0}) × K) (next : Step)
      (s' : K × NetConf) (conf : NetConf) (u : Unit {0})
      → ((on_node host json remote adding sockets w (λ c k. q)) >> next) (q.1, conf) ≡ (ok u, s')
      → (t : K) × (q ≡ (ok tt, t)) × (next (t, conf) ≡ (ok u, s'))
  next_of w (ok v, t) next s' conf u h = (t, refl, h)
  next_of w (err e, t) next s' conf u h = absurd (err-ne-ok (ap (λ q. q.0) h))
  next_of w (panic, t) next s' conf u h = absurd (panic-ne-ok (ap (λ q. q.0) h))

  pub on_node_next :
      (w : CniError → AddFailure) (m : NetConf → Cni host (Unit {0})) (next : Step) (k : K)
      (s' : K × NetConf) (conf : NetConf) (u : Unit {0})
      → (on_node host json remote adding sockets w m >> next) (k, conf) ≡ (ok u, s')
      → (t : K) × (m conf k ≡ (ok tt, t)) × (next (t, conf) ≡ (ok u, s'))
  on_node_next w m next k s' conf u h = next_of w (m conf k) next s' conf u h

  pub record Requested (result : CniResult) (conf : NetConf) (k k' : K) : Type 0 where
    pub created : K
    pub mac : List ℕ
    pub parses : host.parse_mac conf.orig_vf_state.effective_mac ≡ some mac
    pub creates :
        adding.create_bridge_port conf.dpu_daemon_address (create_request conf mac) k
        ≡ (true, created)
    pub prints : adding.print_result result conf.cni_version created ≡ (true, k')

  create_and_print_ok :
      (result : CniResult) (mac : List ℕ) (k k' : K) (conf conf' : NetConf) (u : Unit {0})
      → host.parse_mac conf.orig_vf_state.effective_mac ≡ some mac
      → create_and_print host json remote adding sockets result mac (k, conf) ≡ (ok u, (k', conf'))
      → (conf' ≡ conf) × Requested result conf k k'
  unfolding create_and_print
  create_and_print_ok result mac k k' conf conf' u parsed h =
      let (t, sent, rest) =
        on_node_next seen (create_port host json remote adding sockets mac)
          (on_node host json remote adding sockets unseen
            (print host json remote adding sockets result))
          k (k', conf') conf u h in
      let (same, printed) =
        on_node_last unseen (print host json remote adding sockets result) t k' conf conf' u rest in
      (
        same,
        record {
          created = t;
          mac = mac;
          parses = parsed;
          creates =
              attempt_ok
                (adding.create_bridge_port conf.dpu_daemon_address (create_request conf mac))
                rpc_failed k t tt sent;
          prints =
              attempt_ok (adding.print_result result conf.cni_version) print_failed t k' u printed;
        },
      )

  request_port_ok :
      (result : CniResult) (k k' : K) (conf conf' : NetConf) (u : Unit {0})
      → request_port host json remote adding sockets result (k, conf) ≡ (ok u, (k', conf'))
      → (conf' ≡ conf) × Requested result conf k k'
  unfolding request_port parse_and_create
  request_port_ok result k k' conf conf' u h =
      let (_, parsing) =
        throw_if_ok (not (remote.dial k conf.dpu_daemon_address)) (unseen dial_failed)
          (parse_and_create host json remote adding sockets result conf) (k, conf) (k', conf') u
          h in
      let (mac, parsed, rest) =
        or_throw_ok (host.parse_mac conf.orig_vf_state.effective_mac) (seen parse_mac_failed)
          (create_and_print host json remote adding sockets result) (k, conf) (k', conf') u
          parsing in
      create_and_print_ok result mac k k' conf conf' u parsed rest

  mark_and_request_ok :
      (result : CniResult) (k0 k k' : K) (conf conf' : NetConf) (u : Unit {0})
      → cache_conf host json remote adding sockets args conf k0 ≡ (ok tt, k)
      → mark_and_request host json remote adding sockets args result (k, conf) ≡ (ok u, (k', conf'))
      → (conf' ≡ conf) × Recorded conf k'
  unfolding mark_and_request
  mark_and_request_ok result k0 k k' conf conf' u cached h =
      let (t, marked, rest) =
        on_node_next seen (mark_pci host json remote adding sockets args)
          (request_port host json remote adding sockets result) k (k', conf') conf u h in
      let (same, sent) = request_port_ok result t k' conf conf' u rest in
      (
        same,
        record {
          before = k0;
          cached = k;
          marked = t;
          created = sent.created;
          mac = sent.mac;
          result = result;
          caches = cached;
          marks = marked;
          parses = sent.parses;
          creates = sent.creates;
          prints = sent.prints;
        },
      )

  pub record_and_request-Records :
      (conf : NetConf) (result : CniResult)
      → Records conf (record_and_request host json remote adding sockets args result)
  unfolding record_and_request
  record_and_request-Records conf result u k k' conf' h =
      let (t, cached, rest) =
        on_node_next seen (cache_conf host json remote adding sockets args)
          (mark_and_request host json remote adding sockets args result) k (k', conf') conf u h in
      mark_and_request_ok result k t k' conf conf' u cached rest
