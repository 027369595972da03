-- ===== src/ServiceCall.antt =====
-- src/ros1_tools_adapter/src/service_invoker.cpp and service_helper_main.cpp: a ROS service call in a
-- helper process.
mod Protocol
mod Sockets
mod Invoker
mod Helper
mod Frames
mod Boundary
mod Termination
mod Permits
mod Scenarios
