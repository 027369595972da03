-- ===== src/SceneStore.antt =====
-- src/scene_ros1_adapter/src/core/store.cpp: the edited scene, its history and its receipts.
pub mod State
pub mod Save
pub mod Execute
pub mod Command
mod Cases
pub mod Invariant
pub mod History
pub mod Refinement
pub mod Preservation
pub mod Receipts
pub mod Replay
pub mod Roundtrip
pub mod Open
mod Scenarios
