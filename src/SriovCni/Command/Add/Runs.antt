-- ===== src/SriovCni/Command/Add/Runs.antt =====
-- What a `cmd_add` that succeeded did before it recorded the configuration.
use ipu_opi_plugins.Prelude.{
  ℕ, ◌≡◌, ap, Bool, true, false, not, Option, none, some, String, [], ◌∷◌, ◌==◌, string_eq,
  if◌then◌else◌, length, nat_eq,
}
use ipu_opi_plugins.Outcome.{throw_if, Outcome, ok, err, panic, ◌>>◌}
use ipu_opi_plugins.Outcome.Success.{err-ne-ok, panic-ne-ok, or_throw_ok, throw_if_ok}
use ipu_opi_plugins.SriovCni.Types.{NetConf}
use ipu_opi_plugins.SriovCni.Host.{Host}
use ipu_opi_plugins.SriovCni.Utils.{Cni}
use ipu_opi_plugins.SriovCni.Packets.{Sockets}
use ipu_opi_plugins.SriovCni.Config.{Json, CmdArgs}
use ipu_opi_plugins.SriovCni.Command.{ipam_failed, Remote}
use ipu_opi_plugins.SriovCni.Command.Add.{
  interface_for, with_interface, missing_ip, bad_result, configure_in_pod, configure_and_record,
  in_namespace, Adding, CniResult, Interface, AddFailure, seen, unseen, on_node, record_and_request,
  configure, use_ipam, undo_ipam, run_ipam, address_and_record,
}
use ipu_opi_plugins.SriovCni.Command.Add.Recording.{
  Step, Records, record_and_request-Records, on_node_next,
}

module _ {K : Type 0} (host : Host K) (json : Json) (remote : Remote K) (adding : Adding K)
    (sockets : Sockets K) (args : CmdArgs) where
  abbrev Ends : NetConf → Step host json remote adding sockets args → Type 0
  Ends = Records host json remote adding sockets args

  -- The steps before the configuration is recorded leave it as it is, all but `set_up`.
  configure_by :
      (mode : Bool) (m : NetConf → Cni host (Unit {0}))
      (next : Step host json remote adding sockets args) (k : K) (s' : K × NetConf) (conf : NetConf)
      (u : Unit {0})
      → ((λ s. if not mode then on_node host json remote adding sockets seen m s else (ok tt, s))
            >> next)
          (k, conf)
        ≡ (ok u, s')
      → (t : K) × (next (t, conf) ≡ (ok u, s'))
  configure_by true m next k s' conf u h = (k, h)
  configure_by false m next k s' conf u h =
      let (t, _, rest) =
        on_node_next host json remote adding sockets args seen m next k s' conf u h in
      (t, rest)

  configure_next :
      (netns : ℕ) (result : CniResult) (next : Step host json remote adding sockets args) (k : K)
      (s' : K × NetConf) (conf : NetConf) (u : Unit {0})
      → (configure host json remote adding sockets args netns result >> next) (k, conf) ≡ (ok u, s')
      → (t : K) × (next (t, conf) ≡ (ok u, s'))
  unfolding configure
  configure_next netns result next k s' conf u h =
      configure_by conf.dpdk_mode
        (λ _.
          in_namespace host netns (configure_in_pod host json remote adding sockets args result))
        next k s' conf u h

  configure_and_record-Records :
      (netns : ℕ) (result : CniResult) (conf : NetConf)
      → Ends conf (configure_and_record host json remote adding sockets args netns result)
  unfolding configure_and_record
  configure_and_record-Records netns result conf u k k' conf' h =
      let (t, rest) =
        configure_next netns result (record_and_request host json remote adding sockets args result)
          k (k', conf') conf u h in
      record_and_request-Records host json remote adding sockets args conf result u t k' conf' rest

  use_ipam-Records :
      (netns : ℕ) (interface : Interface) (raw : String) (conf : NetConf)
      → Ends conf (use_ipam host json remote adding sockets args netns interface raw)
  unfolding use_ipam
  use_ipam-Records netns interface raw conf u k k' conf' h =
      let end = configure_and_record host json remote adding sockets args netns in
      let (new, _, rest) =
        or_throw_ok (adding.new_result_from_result raw) (seen bad_result)
          (λ new.
            throw_if (length new.ips == 0) (seen missing_ip)
            >> end (with_interface host json remote adding sockets interface new))
          (k, conf) (k', conf') u h in
      let (_, last) =
        throw_if_ok (length new.ips == 0) (seen missing_ip)
          (end (with_interface host json remote adding sockets interface new)) (k, conf) (k', conf')
          u rest in
      configure_and_record-Records netns
        (with_interface host json remote adding sockets interface new) conf u k k' conf' last

  undone :
      (q : Outcome AddFailure (Unit {0}) × (K × NetConf)) (s s' : K × NetConf) (u : Unit {0})
      → undo_ipam host json remote adding sockets args (λ _. q) s ≡ (ok u, s')
      → q ≡ (ok u, s')
  unfolding undo_ipam
  undone (ok v, t) s s' u h = h
  undone (err (seen e), t) s s' u h = absurd (err-ne-ok (ap (λ q. q.0) h))
  undone (err (unseen e), t) s s' u h = absurd (err-ne-ok (ap (λ q. q.0) h))
  undone (panic, t) s s' u h = absurd (panic-ne-ok (ap (λ q. q.0) h))

  undo_ipam-Records :
      (conf : NetConf) (m : Step host json remote adding sockets args)
      → Ends conf m
      → Ends conf (undo_ipam host json remote adding sockets args m)
  unfolding undo_ipam
  undo_ipam-Records conf m ends u k k' conf' h =
      ends u k k' conf' (undone (m (k, conf)) (k, conf) (k', conf') u h)

  ipam_by :
      (raw : Option String) (netns : ℕ) (interface : Interface) (conf : NetConf)
      → Ends conf (λ s. elim raw [
        | none ↦ (err (seen ipam_failed), s)
        | some r ↦
            undo_ipam host json remote adding sockets args
              (use_ipam host json remote adding sockets args netns interface r)
              s
      ])
  ipam_by none netns interface conf u k k' conf' h = absurd (err-ne-ok (ap (λ q. q.0) h))
  ipam_by (some r) netns interface conf u k k' conf' h =
      undo_ipam-Records conf (use_ipam host json remote adding sockets args netns interface r)
        (use_ipam-Records netns interface r conf) u k k' conf' h

  run_ipam-Records :
      (netns : ℕ) (interface : Interface) (conf : NetConf)
      → Ends conf (run_ipam host json remote adding sockets args netns interface)
  unfolding run_ipam
  run_ipam-Records netns interface conf u k k' conf' h =
      let (raw, k1) = adding.exec_add conf.ipam_type args.stdin_data k in
      ipam_by raw netns interface conf u k1 k' conf' h

  recorded_by :
      (c : Bool) (conf : NetConf) (m n : Step host json remote adding sockets args)
      → Ends conf m
      → Ends conf n
      → Ends conf (λ s. if c then m s else n s)
  recorded_by true conf m n ends others = ends
  recorded_by false conf m n ends others = others

  pub address_and_record-Records :
      (netns : ℕ) (conf : NetConf)
      → Ends conf (address_and_record host json remote adding sockets args netns)
  unfolding address_and_record
  address_and_record-Records netns conf u k k' conf' h =
      let interface = interface_for host json remote adding sockets args conf in
      let result : CniResult = record { interfaces = interface ∷ []; ips = []; others = "" } in
      recorded_by (not (conf.ipam_type == "")) conf
        (run_ipam host json remote adding sockets args netns interface)
        (record_and_request host json remote adding sockets args result)
        (run_ipam-Records netns interface conf)
        (record_and_request-Records host json remote adding sockets args conf result) u k k' conf' h
