-- ===== src/Lib.antt =====
-- Verification of the IPU OPI plugins (Go). The repository holds three programs that work together: the IPU
-- plugin (ipu-plugin), a gRPC server that attaches ports of virtual functions to a bridge on the
-- accelerator and loads packet rules for them; the SR-IOV CNI plugin (sriov_cni), which the container
-- runtime calls to move a virtual function into a pod and which asks the server for the port; and the
-- device plugin (ipu-device-plugin), which offers the interfaces of the node to the kubelet.
--
-- What is modelled, and where:
-- Prelude: names shared by all, Go's `==`, lists by position, and `int` as integers (Prelude.Int).
-- Outcome: a call answers a value, an error or a panic, and leaves a state; do blocks chain calls.
-- Dict: Go's maps.
-- Text: what is used of `strconv`, `strings`, `fmt` and `net.HardwareAddr`. Digits are written on
-- fuel n + 1 for the number n, which is enough since each digit divides by the base.
-- Netlink: the package netlink as the record `Netlink` over an unknown kernel state, with `IsLawful`
-- for its documented behaviour; Netlink.Memory is a kernel that meets it.
-- IpuPlugin.Bridge: ipu-plugin/pkg/types/types.go; Bridge.Linux: ipu-plugin/pkg/ipuplugin/linuxbridge.go;
-- Bridge.Ovs: ipu-plugin/pkg/ipuplugin/ovsbridge.go.
-- IpuPlugin.BridgePort: ipu-plugin/pkg/ipuplugin/bridgeport.go, with CreateBridgePort as
-- `create_bridge_port` and DeleteBridgePort as `delete_bridge_port`. BridgePort.Spec is the service seen
-- from its clients, as a function from names to ports; BridgePort.Runs is what sequences of successful
-- calls lead to.
-- IpuPlugin.Rules: ipu-plugin/pkg/p4rtclient/p4rtclient.go.
-- IpuPlugin.LifeCycle: ipu-plugin/pkg/ipuplugin/lifecycleservice.go.
-- IpuPlugin.Server: ipu-plugin/pkg/ipuplugin/ipuplugin.go and ipu-plugin/ipuplugin/cmd/rootcmd.go;
-- Server.Flags: the flags and the settings that are read behind them;
-- Server.Bindings: which settings these are.
-- SriovCni.Types, Utils, Allocator, Config, Sriov: sriov_cni/pkg/types/types.go,
-- sriov_cni/pkg/utils/utils.go, sriov_cni/pkg/utils/pci_allocator.go, sriov_cni/pkg/config/config.go and
-- sriov_cni/pkg/sriov/sriov.go. SriovCni.Host is what they use of the packages os, ns and netlink, and
-- SriovCni.NetlinkManager the interface of sriov_cni/pkg/utils/netlink_manager.go by which they call the
-- last; Sriov.Lawful and Sriov.Namespaces say what is relied on of the drivers and of the links in namespaces.
-- SriovCni.Logging: sriov_cni/pkg/logging/logging.go.
-- SriovCni.Packets: sriov_cni/pkg/utils/packet.go, with the bytes of the packets.
-- SriovCni.Command: of sriov_cni/cmd/sriov/main.go, cmdDel as `cmd_del`; Command.Add: cmdAdd as `cmd_add`,
-- whose steps run on the node and the configuration, and whose deferred functions are `undo_ipam` and
-- `finish_add`; Add.Undone is cmdDel behind cmdAdd, and Command.Served is both requests at the server.
-- An error tells whether the deferred functions see it.
-- DevicePlugin: ipu-device-plugin/cmd/ipu-dp/main.go and, of ipu-device-plugin/pkg/types/types.go, what it
-- uses; `list_and_watch` runs its endless loop for the rounds that it is given; DevicePlugin.Start: `Start`, `Stop` and `main`.
-- Tests: the theorems at concrete inputs.
--
-- How the code is read: calls run one after the other. A lookup's error is read as "not there", as
-- the code reads it. Errors are values without their texts. A nil pointer that is followed and an
-- index out of range are the outcome `panic`. Log messages are left out. A path is the list of the
-- elements that `filepath.Join` is given. `strings.ToLower` is that of ASCII. Loops are recursion on
-- the list or on the number of rounds that the code writes out, so that they end.
--
-- Not modelled: the packages cobra and viper, of which the calls are parameters, and how grpc calls
-- the handlers; the log messages of the programs; the interfaces of ipu-device-plugin/pkg/types/types.go, which
-- nothing implements; the P4 programs and the C sample, which are other languages; the mocks of the tests.
pub mod Prelude
pub mod Outcome
pub mod Dict
pub mod Text
pub mod Netlink
pub mod IpuPlugin
pub mod DevicePlugin
pub mod SriovCni
pub mod Tests
