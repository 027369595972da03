-- ===== src/ServerOptions.antt =====
-- The command line of a robot type server (src/common/src/robot_server_options.cpp).
pub mod Names
pub mod Parse
pub mod Reading
mod Scenarios
