-- ===== src/RobotServer.antt =====
-- src/common/src/robot_server.cpp: which controller may move which robot.
-- A handler that gives its lock up is a chain of critical sections, and what the other threads do
-- while it does not hold the lock is a function on the state.
pub mod State
pub mod Control
pub mod Renewal
pub mod Release
pub mod Controller
pub mod Retirement
pub mod Dispatch
pub mod Status
pub mod Drain
pub mod Interleaving
mod Cases
mod Keeps
pub mod Invariant
pub mod Ownership
pub mod Rate
pub mod Admission
pub mod Joining
pub mod Safety
pub mod Heartbeat
pub mod Succession
mod Scenarios
