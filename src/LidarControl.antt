-- ===== src/LidarControl.antt =====
-- src/scene_ros1_adapter/src/lidar/control.cpp: the switch of the lidar source.
mod State
mod Request
mod Handle
mod Apply
mod Invariant
mod Preservation
mod Sections
mod Posting
mod Guarantee
mod Replay
mod Scenarios
