-- ===== src/Server.antt =====
-- pkg/server.
pub mod Protocol
