-- ===== src/Tcp.antt =====
-- The TCP half of the proxy: the forwarding peers of one task (`Peer`), and the tasks and their
-- manager (`Manager`), of src/ProxyLaneHook.
pub mod Manager
pub mod Peer
