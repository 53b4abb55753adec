-- ===== src/Tests.antt =====
-- Tests, and the theorems at concrete inputs.
mod BridgePort
mod Runs
mod Rules
mod LifeCycle
mod Server
mod SriovCni
mod Mac
mod Sriov
mod Moves
mod Allocator
mod Config
mod Requests
mod Served
mod Delete
mod Add
mod Undone
mod Packets
mod DevicePlugin
