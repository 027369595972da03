-- ===== src/PublisherRegistry.antt =====
-- src/ros1_tools_adapter/src/publisher_registry.cpp: the cached publishers of ROS1 Tools.
pub mod State
pub mod Publish
mod Boundary
mod Capacity
mod Scenarios
