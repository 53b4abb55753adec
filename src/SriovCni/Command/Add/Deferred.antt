-- ===== src/SriovCni/Command/Add/Deferred.antt =====
-- The whole of `cmdAdd`, with the function that is deferred behind `GetNS`.
use ipu_opi_plugins.Prelude.{ℕ, string_eq, nat_eq}
use ipu_opi_plugins.Outcome.{Outcome, ok, err, panic, pure, or_throw, ignore_error, ◌>>=◌, ◌>>◌}
use ipu_opi_plugins.SriovCni.Types.{NetConf}
use ipu_opi_plugins.SriovCni.Host.{
  Host, CniError, opened, ns_not_exist, ns_failed, namespace_failed, bad_args, lookup_failed,
  bad_json,
}
use ipu_opi_plugins.SriovCni.Utils.{Cni}
use ipu_opi_plugins.SriovCni.Packets.{Sockets}
use ipu_opi_plugins.SriovCni.Config.{Json, CmdArgs, load_conf}
use ipu_opi_plugins.SriovCni.Sriov.{named, in_namespace, release_vf, reset_vf_config}
use ipu_opi_plugins.SriovCni.Command.{Remote}
use ipu_opi_plugins.SriovCni.Command.Add.{
  Adding, AddFailure, seen, unseen, get_env_args, choose_mac, run_add,
}

module _ {K : Type 0} (host : Host K) (json : Json) (remote : Remote K) (adding : Adding K)
    (sockets : Sockets K) where
  abbrev pub find_in_pod : CmdArgs → Cni host (Unit {0})
  find_in_pod args = do _ ← named host args.if_name lookup_failed; pure tt

  -- The deferred function of a failure: the interface goes back where it is in the pod.
  unfoldable pub roll_back : CmdArgs → ℕ → NetConf → Cni host (Unit {0})
  roll_back args netns conf k =
      let (found, k1) = in_namespace host netns (find_in_pod args) k in
      elim found [
        | ok _ ↦
            (do
              ignore_error (release_vf host conf args.if_name netns)
              ignore_error (reset_vf_config host conf))
              k1
        | err _ ↦ ignore_error (reset_vf_config host conf) k1
        | panic ↦ (panic, k1)
      ]

  -- A panic in the deferred function takes the place of the error.
  unfoldable pub finish_add :
      CmdArgs → ℕ → Outcome AddFailure (Unit {0}) × (K × NetConf) → Outcome CniError (Unit {0}) × K
  finish_add args netns (ok u, (k, conf)) = (ok u, k)
  finish_add args netns (err (seen e), (k, conf)) =
      let (rolled, k') = roll_back args netns conf k in
      elim rolled [ panic ↦ (panic, k') | _ ↦ (err e, k') ]
  finish_add args netns (err (unseen e), (k, conf)) = (err e, k)
  finish_add args netns (panic, (k, conf)) = (panic, k)

  -- The steps with the namespace.
  unfoldable pub add_to : CmdArgs → NetConf → Cni host (Unit {0})
  add_to args conf k = elim (host.get_ns k args.netns) [
    | opened fd ↦ finish_add args fd (run_add host json remote adding sockets args fd (k, conf))
    | ns_not_exist ↦ (err namespace_failed, k)
    | ns_failed ↦ (err namespace_failed, k)
  ]

  -- `SetLogging` only reads the text.
  unfoldable pub cmd_add : CmdArgs → Cni host (Unit {0})
  cmd_add args = do
    _ ← or_throw (json.unmarshal args.stdin_data) bad_json
    conf ← load_conf host json args.stdin_data
    env_mac ← or_throw (get_env_args adding args.args) bad_args
    add_to args (choose_mac env_mac conf)
