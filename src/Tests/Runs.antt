-- ===== src/Tests/Runs.antt =====
-- A port that is created and deleted again, as a sequence of calls.
use ipu_opi_plugins.Prelude.{List, [], ◌∷◌, refl}
use ipu_opi_plugins.Netlink.Memory.{Kernel, memory-IsLawful}
use ipu_opi_plugins.IpuPlugin.BridgePort.{State, delete_bridge_port}
use ipu_opi_plugins.IpuPlugin.BridgePort.Spec.{
  Request, create, delete, Follows, ports_of, serve_all, serve_all-Follows,
}
use ipu_opi_plugins.IpuPlugin.BridgePort.Runs.{
  Reach, here, created, deleted, IsSound, empty-IsSound, Reach-IsSound,
}
use ipu_opi_plugins.IpuPlugin.BridgePort.Ports.{as_up}
use ipu_opi_plugins.Tests.BridgePort as Test
use ipu_opi_plugins.Tests.BridgePort.{
  idle, idle-LeavesDevices, test_port, start, test_plugin, creates, deletes,
}

abbrev calls : List Request
calls = create test_port ∷ delete "p" ∷ create test_port ∷ []

serve_all-Follows_example :
    Follows calls
      (serve_all test_plugin calls start).0
      (ports_of start)
      (ports_of (serve_all test_plugin calls start).1)
serve_all-Follows_example = serve_all-Follows test_plugin calls start

abbrev last : State Kernel
last = (delete_bridge_port test_plugin "p" Test.created).1

goes : Reach test_plugin start last
goes = deleted "p" (created test_port (as_up test_port) here creates) deletes

nothing-IsSound : IsSound memory-IsLawful idle idle-LeavesDevices "br0" "eth0" start
nothing-IsSound = empty-IsSound memory-IsLawful idle idle-LeavesDevices "br0" "eth0" start refl

Reach-IsSound_example : IsSound memory-IsLawful idle idle-LeavesDevices "br0" "eth0" last
Reach-IsSound_example =
    Reach-IsSound memory-IsLawful idle idle-LeavesDevices "br0" "eth0" nothing-IsSound goes
