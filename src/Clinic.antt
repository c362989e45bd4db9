-- ===== src/Clinic.antt =====
-- packages/clinic/src/wutai_clinic/kernel: the manipulation checks of paired experiments, and
-- the snapshots of state files.
pub mod Checks
pub mod Chain
pub mod Grammar
pub mod Registry
pub mod Pruner
pub mod Trajectory
pub mod Diagnoser
pub mod Snapshot
