-- ===== src/Server.antt =====
-- The HTTP endpoints of the package server.
pub mod GetId
pub mod Ws
pub mod Upload
