-- ===== src/Net.antt =====
-- The sockets of c/platform and the listener of c/net.
pub mod Listener
pub mod Socket
