-- ===== src/IpuPlugin/Server/Launch.antt =====
-- In which state the services are offered.
use ipu_opi_plugins.Prelude.{
  ◌<◌, ℕ, ◌≡◌, refl, sym, ap, ◌∙◌, ◌⊎◌, inl, inr, Bool-cases, true, false, Option, some, String,
  List, ◌==◌, string_eq, nat_eq, arith,
}
use ipu_opi_plugins.Outcome.{Outcome, ok, err, panic, Attempt, wrapping}
use ipu_opi_plugins.Outcome.Success.{err-ne-ok, panic-ne-ok, bind_ok, wrapping_ok}
use ipu_opi_plugins.Netlink.{Netlink, Device, IsLawful, bridge}
use ipu_opi_plugins.IpuPlugin.Bridge.Linux
use ipu_opi_plugins.IpuPlugin.Bridge.Linux.Laws.{ensure_bridge_exists_lem}
use ipu_opi_plugins.IpuPlugin.Server.{
  Settings, Process, Halt, failed, fatal, validate_configs, get_bridge_controller, new_ipu_plugin,
  get_listener, ensure_and_serve, serve, run, log_init, run_after_log, status, execute,
}

known_mode : (mode : String) → validate_configs mode ≡ true → (mode ≡ "host") ⊎ (mode ≡ "ipu")
unfolding validate_configs
known_mode mode h = ground arith

status-zero : (code : ℕ) (r : Outcome Halt (Unit {0})) → 0 < code → status code r ≡ 0 → r ≡ ok tt
status-zero code (ok u) h e = refl
status-zero code (err failed) h e = absurd (omega arith)
status-zero code (err fatal) h e = absurd (omega arith)
status-zero code panic h e = absurd (omega arith)

one-ne-zero : ◌≡◌ {A = ℕ} 1 0 → ⊥
one-ne-zero e = omega arith

module _ {K : Type 0} {netlink : Netlink K} {dev : K → String → Option Device}
    (L : IsLawful netlink dev) (run_command : String → List String → Attempt K)
    (process : Process K) where
  -- The services are offered on a listener, in a state in which the bridge exists.
  pub record IsLaunched (c : Settings) (k' : K) : Type 0 where
    pub start : K
    pub listening : K
    pub bridged : K
    pub listener : ℕ
    pub device : Device
    pub listens :
        get_listener netlink run_command process
          (new_ipu_plugin netlink run_command process c)
          start
        ≡ (ok listener, listening)
    pub exists : dev bridged c.bridge ≡ some device
    pub is_bridge : device.link.link_type ≡ bridge
    pub serves :
        serve netlink run_command process
          (new_ipu_plugin netlink run_command process c)
          listener
          bridged
        ≡ (ok tt, k')

  ensured :
      (c : Settings) (k k' : K)
      → (c.bridge_type == "ovs") ≡ false
      → (new_ipu_plugin netlink run_command process c).plugin.bridge_ctlr.ensure_bridge_exists k
        ≡ (ok tt, k')
      → (d : Device) × (dev k' c.bridge ≡ some d) × (d.link.link_type ≡ bridge)
  unfolding new_ipu_plugin get_bridge_controller
  ensured c k k' linux h =
      let e : Linux.ensure_bridge_exists netlink c.bridge k ≡ (ok tt, k') = rw linux at h in
      let (d, there, kind, _) = ensure_bridge_exists_lem L c.bridge k (ap (λ q. q.0) e) in
      (d, ap (λ q. dev q.1 c.bridge) (sym e) ∙ there, kind)

  run-IsLaunched :
      (c : Settings) (k k' : K)
      → (c.bridge_type == "ovs") ≡ false
      → run netlink run_command process (new_ipu_plugin netlink run_command process c) k
        ≡ (ok tt, k')
      → IsLaunched c k'
  unfolding run ensure_and_serve
  run-IsLaunched c k k' linux h =
      let s = new_ipu_plugin netlink run_command process c in
      let ensure = wrapping (λ _. fatal) s.plugin.bridge_ctlr.ensure_bridge_exists in
      let (listener, k1, listens, rest) =
        bind_ok (get_listener netlink run_command process s)
          (ensure_and_serve netlink run_command process s) k k' tt h in
      let (_, k2, made, serves) =
        bind_ok ensure (λ _. serve netlink run_command process s listener) k1 k' tt rest in
      let (d, there, kind) =
        ensured c k1 k2 linux
          (wrapping_ok (λ _. fatal) s.plugin.bridge_ctlr.ensure_bridge_exists k1 k2 tt made) in
      record {
        start = k;
        listening = k1;
        bridged = k2;
        listener = listener;
        device = d;
        listens = listens;
        exists = there;
        is_bridge = kind;
        serves = serves;
      }

  run_after_log_ok :
      (c : Settings) (r : Outcome Halt (Unit {0})) (k k' : K)
      → (c.bridge_type == "ovs") ≡ false
      → run_after_log netlink run_command process c r k ≡ (0, k')
      → IsLaunched c k'
  run_after_log_ok c (ok u) k k' linux h = run-IsLaunched c k k' linux (
      let q = run netlink run_command process (new_ipu_plugin netlink run_command process c) k in
      ap (λ r. (r, q.1)) (status-zero 4 q.0 (omega arith) (ap (λ p. p.0) h))
      ∙ ap (λ p. (ok tt, p.1)) h)
  run_after_log_ok c (err e) k k' linux h =
      absurd (err-ne-ok (status-zero 3 (err e) (omega arith) (ap (λ p. p.0) h)))
  run_after_log_ok c panic k k' linux h =
      absurd (panic-ne-ok (status-zero 3 panic (omega arith) (ap (λ p. p.0) h)))

  -- In a lawful kernel, with a bridge type other than "ovs": when the process ends with the
  -- status 0, the mode of the flag is "host" or "ipu", and the services were offered on the
  -- listener that `getListener` answered, in a state in which a bridge of the configured name
  -- exists.
  pub execute-IsLaunched :
      (mode : String) (c : Settings) (k k' : K)
      → (c.bridge_type == "ovs") ≡ false
      → execute netlink run_command process mode c k ≡ (0, k')
      → ((mode ≡ "host") ⊎ (mode ≡ "ipu")) × IsLaunched c k'
  unfolding execute
  execute-IsLaunched mode c k k' linux h = elim (Bool-cases (validate_configs mode)) [
    | inl e ↦ (
      known_mode mode e,
      let (r, k1) = log_init netlink run_command process c.log_dir c.verbosity k in
          run_after_log_ok c r k1 k' linux (rw (execute, e) at h),
    )
    | inr e ↦ absurd (one-ne-zero (ap (λ p. p.0) (rw (execute, e) at h)))
  ]
