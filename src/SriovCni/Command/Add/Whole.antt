-- ===== src/SriovCni/Command/Add/Whole.antt =====
-- What the whole of a `cmd_add` that succeeded did.
use ipu_opi_plugins.Prelude.{
  some, subst, ℕ, ◌≡◌, refl, sym, ap, inl, inr, Bool, true, false, not, Option, Option-cases,
  String, string_eq, if◌then◌else◌, nat_eq,
}
use ipu_opi_plugins.Outcome.{or_throw, Outcome, ok, err, panic, wrapping, or_throw, ◌>>=◌}
use ipu_opi_plugins.Outcome.Success.{err-ne-ok, panic-ne-ok, bind_ok, wrapping_ok, or_throw_ok}
use ipu_opi_plugins.SriovCni.Types.{NetConf}
use ipu_opi_plugins.SriovCni.Host.{
  Host, VfLink, CniError, NsResult, opened, ns_not_exist, ns_failed,
}
use ipu_opi_plugins.SriovCni.Utils.{Cni}
use ipu_opi_plugins.SriovCni.Packets.{Sockets}
use ipu_opi_plugins.SriovCni.Config.{Json, CmdArgs, load_conf}
use ipu_opi_plugins.SriovCni.Sriov.{apply_vf_config, setup_vf, with_effective_mac}
use ipu_opi_plugins.SriovCni.Command.{bad_json, namespace_failed, Remote}
use ipu_opi_plugins.SriovCni.Command.Add.{
  bad_args, set_up_and_record, Adding, AddFailure, seen, unseen, apply_config, set_up,
  address_and_record, run_add, choose_mac, get_env_args,
}
use ipu_opi_plugins.SriovCni.Command.Add.Deferred.{roll_back, finish_add, add_to, cmd_add}
use ipu_opi_plugins.SriovCni.Command.Add.Recording.{Recorded, on_node_next}
use ipu_opi_plugins.SriovCni.Command.Add.Runs.{address_and_record-Records}

module _ {K : Type 0} (host : Host K) (json : Json) (remote : Remote K) (adding : Adding K)
    (sockets : Sockets K) (args : CmdArgs) where
  -- The configuration before and after `SetupVF`, which is left out for a driver of user space.
  pub data Prepared (conf : NetConf) : NetConf → Type 0 where
    in_user_space : conf.dpdk_mode ≡ true → Prepared conf conf
    moved :
        (link : VfLink) → conf.dpdk_mode ≡ false → Prepared conf (with_effective_mac host link conf)

  setup_vf_ok :
      (netns : ℕ) (k : K) (s' : K × NetConf) (conf : NetConf) (u : Unit {0})
      → setup_vf host args.if_name netns (k, conf) ≡ (ok u, s')
      → (link : VfLink) × (s'.1 ≡ with_effective_mac host link conf)
  unfolding setup_vf
  setup_vf_ok netns k s' conf u h =
      elim (Option-cases (host.link_by_name k conf.orig_vf_state.host_if_name)) [
        | inl e ↦ absurd (err-ne-ok (ap (λ q. q.0) (rw (setup_vf, e) at h)))
        | inr (link, e) ↦ (link, sym (ap (λ q. q.1.1) (rw (setup_vf, e) at h)))
      ]

  set_up_by :
      (mode : Bool) (netns : ℕ) (k : K) (s' : K × NetConf) (conf : NetConf) (u : Unit {0})
      → conf.dpdk_mode ≡ mode
      → (if not mode
          then wrapping seen (setup_vf host args.if_name netns) (k, conf)
          else (ok tt, (k, conf)))
        ≡ (ok u, s')
      → Prepared conf s'.1
  set_up_by true netns k s' conf u e h = subst (Prepared conf) (ap (λ q. q.1.1) h) (in_user_space e)
  set_up_by false netns k s' conf u e h =
      let (link, same) =
        setup_vf_ok netns k s' conf u
          (wrapping_ok seen (setup_vf host args.if_name netns) (k, conf) s' u h) in
      subst (Prepared conf) (sym same) (moved link e)

  -- A successful run prepared the configuration, and recorded it.
  abbrev Runs : NetConf → K → Type 0
  Runs conf k' =
      (conf' : NetConf) × Prepared conf conf'
      × Recorded host json remote adding sockets args conf' k'

  set_up_and_record_ok :
      (netns : ℕ) (k : K) (s' : K × NetConf) (conf : NetConf) (u : Unit {0})
      → set_up_and_record host json remote adding sockets args netns (k, conf) ≡ (ok u, s')
      → (r : Runs conf s'.0) × (r.0 ≡ s'.1)
  unfolding set_up_and_record set_up
  set_up_and_record_ok netns k s' conf u h =
      let (v, s1, prepared, rest) =
        bind_ok (set_up host json remote adding sockets args netns)
          (λ _. address_and_record host json remote adding sockets args netns) (k, conf) s' u h in
      let (same, recorded) =
        address_and_record-Records host json remote adding sockets args netns s1.1 u s1.0 s'.0 s'.1
          rest in
      ((s1.1, set_up_by conf.dpdk_mode netns k s1 conf v refl prepared, recorded), sym same)

  run_add_ok :
      (netns : ℕ) (k : K) (s' : K × NetConf) (conf : NetConf) (u : Unit {0})
      → run_add host json remote adding sockets args netns (k, conf) ≡ (ok u, s')
      → (r : Runs conf s'.0) × (r.0 ≡ s'.1)
  unfolding run_add apply_config
  run_add_ok netns k s' conf u h =
      let (t, _, rest) =
        on_node_next host json remote adding sockets args unseen (apply_vf_config host)
          (set_up_and_record host json remote adding sockets args netns) k s' conf u h in
      set_up_and_record_ok netns t s' conf u rest

  stays_failed :
      (rolled : Outcome CniError (Unit {0})) (e : CniError) (k k' : K) (u : Unit {0})
      → ◌≡◌ {A = Outcome CniError (Unit {0}) × K}
          (elim rolled [ panic ↦ (panic, k) | _ ↦ (err e, k) ])
          (ok u, k')
      → ⊥
  stays_failed (ok v) e k k' u h = err-ne-ok (ap (λ q. q.0) h)
  stays_failed (err d) e k k' u h = err-ne-ok (ap (λ q. q.0) h)
  stays_failed panic e k k' u h = panic-ne-ok (ap (λ q. q.0) h)

  finish_add_ok :
      (netns : ℕ) (q : Outcome AddFailure (Unit {0}) × (K × NetConf)) (k' : K) (u : Unit {0})
      → finish_add host json remote adding sockets args netns q ≡ (ok u, k')
      → q ≡ (ok u, (k', q.1.1))
  unfolding finish_add
  finish_add_ok netns (ok v, (t, conf)) k' u h = ap (λ q. (ok u, (q.1, conf))) h
  finish_add_ok netns (err (seen e), (t, conf)) k' u h =
      let (rolled, k) = roll_back host json remote adding sockets args netns conf t in
      absurd (stays_failed rolled e k k' u h)
  finish_add_ok netns (err (unseen e), (t, conf)) k' u h = absurd (err-ne-ok (ap (λ q. q.0) h))
  finish_add_ok netns (panic, (t, conf)) k' u h = absurd (panic-ne-ok (ap (λ q. q.0) h))

  add_to_by :
      (ns : NsResult) (k k' : K) (conf : NetConf) (u : Unit {0})
      → ◌≡◌ {A = Outcome CniError (Unit {0}) × K}
          (elim ns [
            | opened fd ↦
                finish_add host json remote adding sockets args fd
                  (run_add host json remote adding sockets args fd (k, conf))
            | ns_not_exist ↦ (err namespace_failed, k)
            | ns_failed ↦ (err namespace_failed, k)
          ])
          (ok u, k')
      → (fd : ℕ) × (r : Runs conf k') × (ns ≡ opened fd)
        × (run_add host json remote adding sockets args fd (k, conf) ≡ (ok u, (k', r.0)))
  add_to_by (opened fd) k k' conf u h =
      let q = run_add host json remote adding sockets args fd (k, conf) in
      let ran = finish_add_ok fd q k' u h in
      let (r, e) = run_add_ok fd k (k', q.1.1) conf u ran in
      (fd, r, refl, subst (λ c. q ≡ (ok u, (k', c))) (sym e) ran)
  add_to_by ns_not_exist k k' conf u h = absurd (err-ne-ok (ap (λ q. q.0) h))
  add_to_by ns_failed k k' conf u h = absurd (err-ne-ok (ap (λ q. q.0) h))

  -- The configuration that `LoadConf` answered was given its MAC address, prepared and recorded.
  pub record IsAdded (k k' : K) : Type 0 where
    pub loaded : NetConf
    pub k1 : K
    pub loads : load_conf host json args.stdin_data k ≡ (ok loaded, k1)
    pub env_mac : Option String
    pub env : get_env_args adding args.args ≡ some env_mac
    pub fd : ℕ
    pub opens : host.get_ns k1 args.netns ≡ opened fd
    pub runs : Runs (choose_mac env_mac loaded) k'
    pub ran :
        run_add host json remote adding sockets args fd (k1, choose_mac env_mac loaded)
        ≡ (ok tt, (k', runs.0))

  pub cmd_add-IsAdded :
      (k k' : K) → cmd_add host json remote adding sockets args k ≡ (ok tt, k') → IsAdded k k'
  unfolding cmd_add add_to
  cmd_add-IsAdded k k' h =
      let next : NetConf → Cni host (Unit {0}) = λ conf.
        or_throw (get_env_args adding args.args) bad_args >>= λ env_mac.
        add_to host json remote adding sockets args (choose_mac env_mac conf) in
      let (_, _, loading) =
        or_throw_ok (json.unmarshal args.stdin_data) bad_json
          (λ _. load_conf host json args.stdin_data >>= next) k k' tt h in
      let (loaded, k1, loads, parsing) =
        bind_ok (load_conf host json args.stdin_data) next k k' tt loading in
      let (env_mac, env, rest) =
        or_throw_ok (get_env_args adding args.args) bad_args
          (λ env_mac. add_to host json remote adding sockets args (choose_mac env_mac loaded)) k1 k'
          tt parsing in
      let (fd, runs, opens, ran) =
        add_to_by (host.get_ns k1 args.netns) k1 k' (choose_mac env_mac loaded) tt rest in
      record {
        loaded = loaded;
        k1 = k1;
        loads = loads;
        env_mac = env_mac;
        env = env;
        fd = fd;
        opens = opens;
        runs = runs;
        ran = ran;
      }
