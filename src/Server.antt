-- ===== src/Server.antt =====
-- The companion framing of sdr-node/src/companion_server.cpp and companion_server.h.
pub mod Framing
pub mod Greeting
pub mod Session
pub mod Clients
