-- ===== src/Runtime.antt =====
-- packages/runtime/aro_runtime: policy, tools, the run loop, traces, replay and the stores.
pub mod Policy
pub mod Workspace
pub mod Tools
pub mod Script
pub mod Resolve
pub mod Event
pub mod Executor
pub mod Trace
pub mod Replay
pub mod Bundle
pub mod Store
