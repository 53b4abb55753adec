-- ===== src/IpuPlugin.antt =====
-- The IPU plugin (ipu-plugin/): a gRPC server that adds ports to a bridge and programs the
-- packet processor, and that sets up the channel to the daemon.
pub mod Bridge
pub mod Rules
pub mod BridgePort
pub mod LifeCycle
pub mod Server
