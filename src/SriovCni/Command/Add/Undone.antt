-- ===== src/SriovCni/Command/Add/Undone.antt =====
-- `cmd_del` behind a `cmd_add` that succeeded.
use ipu_opi_plugins.Prelude.{
  ◌≡◌, ◌≢◌, ◌⊎◌, inl, inr, sym, ap, ◌∙◌, Option, none, some, String, string_eq,
}
use ipu_opi_plugins.Outcome.{ok}
use ipu_opi_plugins.SriovCni.Types.{NetConf}
use ipu_opi_plugins.SriovCni.Host.{Host, FilePath, ns_not_exist}
use ipu_opi_plugins.SriovCni.Utils.{clean_cached_net_conf}
use ipu_opi_plugins.SriovCni.Packets.{Sockets}
use ipu_opi_plugins.SriovCni.Allocator.{new_pci_allocator}
use ipu_opi_plugins.SriovCni.Allocator.Reserve.{KeepsFiles, delete_allocated_pci_leaves}
use ipu_opi_plugins.SriovCni.Config.{Json, CmdArgs, default_cni_dir, load_conf_from_cache}
use ipu_opi_plugins.SriovCni.Command.{Remote, port_name, run_del, cmd_del}
use ipu_opi_plugins.SriovCni.Command.Released.{GaveBack, Ended, cmd_del_ok}
use ipu_opi_plugins.SriovCni.Command.Add.{Adding}
use ipu_opi_plugins.SriovCni.Command.Add.Deferred.{cmd_add}
use ipu_opi_plugins.SriovCni.Command.Add.Recording.{Recorded}
use ipu_opi_plugins.SriovCni.Command.Add.Caching.{
  without_mode, ReadsBack, LeavesFiles, Ran, cached_conf, lock, cmd_add-load_conf_from_cache,
}

module _ {K : Type 0} (host : Host K) (json : Json) (remote : Remote K) (adding : Adding K)
    (sockets : Sockets K) (content : K → FilePath → Option String) (keeps : KeepsFiles host content)
    (reads : ReadsBack json) (args : CmdArgs) where
  -- The steps behind the removal of a lock file leave it alone.
  pub record LeavesLock : Type 0 where
    pub by_deletion :
        (f : FilePath) (addr name : String) (k : K)
        → content (remote.delete_bridge_port addr name k).1 f ≡ content k f
    pub by_cleaning :
        (pci : String) (k : K)
        → content
            (host.remove (cached_conf host json remote adding sockets content keeps reads args) k).1
            (lock host json remote adding sockets content keeps reads args pci)
          ≡ content k (lock host json remote adding sockets content keeps reads args pci)

  unlocked :
      (leaves : LeavesLock) (conf : NetConf) (k k' : K)
      → GaveBack host json remote args (without_mode conf) k
      → k'
        ≡ (clean_cached_net_conf host
            (cached_conf host json remote adding sockets content keeps reads args)
            k).1
      → content k' (lock host json remote adding sockets content keeps reads args conf.device_id)
        ≡ none
  unfolding clean_cached_net_conf
  unlocked leaves conf k k' gave cleaned =
      let f = lock host json remote adding sockets content keeps reads args conf.device_id in
      ap (λ j. content j f) cleaned
      ∙ leaves.by_cleaning conf.device_id k
      ∙ ap (λ q. content q.1 f) (sym gave.deletes)
      ∙ leaves.by_deletion f conf.dpu_daemon_address (port_name (without_mode conf)) gave.unlocked
      ∙ delete_allocated_pci_leaves host content keeps.absence (new_pci_allocator default_cni_dir)
          conf.device_id gave.before gave.unlocked gave.unlocks

  given_back :
      (leaves : LeavesLock) (conf : NetConf) (k k' : K)
      → Ended host json remote args (without_mode conf) k
      → k'
        ≡ (clean_cached_net_conf host
            (cached_conf host json remote adding sockets content keeps reads args)
            k).1
      → (host.get_ns k args.netns ≡ ns_not_exist)
        ⊎ ((content k'
                (lock host json remote adding sockets content keeps reads args conf.device_id)
              ≡ none)
            × GaveBack host json remote args (without_mode conf) k)
  given_back leaves conf k k' (inl gone) cleaned = inl gone
  given_back leaves conf k k' (inr gave) cleaned =
      inr (unlocked leaves conf k k' gave cleaned, gave)

  -- Of files that keep what is written, of a JSON library that reads back what it wrote but for
  -- the mode, and of steps that leave files alone that they do not name: when `cmdAdd` succeeds
  -- for a pod with a namespace path, and `cmdDel` with the same arguments succeeds in a state
  -- where the cached configuration is read as behind `cmdAdd`, the steps of `cmdAdd` ended with a
  -- configuration whose device the lock file marked with the path behind `cmdAdd`, and whose port
  -- the service created in calls of which the last left the state that `cmdAdd` left. The state
  -- that `cmdDel` leaves is that in which its steps for the cached configuration ended, but for
  -- the removal of the cached file. In the state in which these steps ended the pod's namespace
  -- does not exist; or else no lock file of the device is left at the end, and the last calls of
  -- these steps were that the lock file was removed and that, behind it, the service at the same
  -- address deleted the port of the name that was created.
  pub cmd_del-cmd_add :
      (leaves : LeavesFiles host json remote adding sockets content keeps reads args)
      (last : LeavesLock) (k k' m k2 : K)
      → args.netns ≢ ""
      → cmd_add host json remote adding sockets args k ≡ (ok tt, k')
      → load_conf_from_cache host json m args ≡ load_conf_from_cache host json k' args
      → cmd_del host json remote args m ≡ (ok tt, k2)
      → (conf : NetConf) × Ran host json remote adding sockets content keeps reads args conf k k'
        × Recorded host json remote adding sockets args conf k'
        × (content k' (lock host json remote adding sockets content keeps reads args conf.device_id)
            ≡ some args.netns)
        × (k2
            ≡ (clean_cached_net_conf host
                (cached_conf host json remote adding sockets content keeps reads args)
                (run_del host json remote args (without_mode conf) m).1).1)
        × ((host.get_ns (run_del host json remote args (without_mode conf) m).1 args.netns
              ≡ ns_not_exist)
            ⊎ ((content k2
                    (lock host json remote adding sockets content keeps reads args conf.device_id)
                  ≡ none)
                × GaveBack host json remote args
                    (without_mode conf)
                    (run_del host json remote args (without_mode conf) m).1))
  cmd_del-cmd_add leaves last k k' m k2 in_pod added still deleted =
      let (conf, ran, cached, locked, recorded) =
        cmd_add-load_conf_from_cache host json remote adding sockets content keeps reads args leaves
          k k' added in
      let (_, ended, cleaned) =
        cmd_del_ok host json remote args (without_mode conf)
          (cached_conf host json remote adding sockets content keeps reads args) m k2 in_pod
          (still ∙ cached) deleted in
      let j = (run_del host json remote args (without_mode conf) m).1 in
      (conf, ran, recorded, locked, cleaned, given_back last conf j k2 ended cleaned)
