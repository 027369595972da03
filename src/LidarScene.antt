-- ===== src/LidarScene.antt =====
-- The scene that the lidars see (src/scene_ros1_adapter/src/lidar/scene.cpp, lidar/engine.cpp,
-- lidar_ros/scene_tap.cpp).
pub mod Cache
pub mod Messages
pub mod Tap
pub mod Current
pub mod Recovery
mod Scenarios
