-- ===== src/MotionCommand.antt =====
-- src/ugv_ros1_adapter/src/motion_command.cpp: the operator's motion intent of a ground robot.
pub mod Publisher
mod LastSent
mod Scenarios
