-- ===== src/Px4Operations.antt =====
-- PX4 requests and their answers (src/px4_multirotor_ros1_adapter/src/px4_operations.cpp).
pub mod Requests
pub mod Results
pub mod Reboot
mod Scenarios
