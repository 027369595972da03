-- ===== src/RemoteControl.antt =====
-- src/px4_multirotor_ros1_adapter/src/remote_control.cpp: the operator's motion intent of a
-- multirotor.
pub mod Publisher
mod LastSent
mod Scenarios
