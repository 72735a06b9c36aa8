-- ===== src/Debugger.antt =====
-- src/core/scripting/debugger: what the Lua debugger does around the VM.
pub mod Paths
pub mod Rings
pub mod State
pub mod Hook
pub mod Parked
pub mod Dap
