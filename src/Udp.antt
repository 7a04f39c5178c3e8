-- ===== src/Udp.antt =====
-- The UDP path of ProxyLane (src/ProxyLaneHook): one module for each policy and for the task.
pub mod Capability
pub mod Pending
pub mod Destination
pub mod Routes
pub mod Task
pub mod Payload
pub mod BlockLog
pub mod Manager
