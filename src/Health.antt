-- ===== src/Health.antt =====
-- bridge_health.py: `BridgeHealthState` and its snapshots. Times are whole seconds; the reading of
-- the clock is an argument of an operation that needs one.
pub mod Reason
pub mod Snapshot
pub mod State
pub mod Ops
pub mod Overrides
pub mod Step
pub mod Invariant
pub mod Notify
pub mod Effective
pub mod Render
pub mod Publisher
