-- ===== src/Server.antt =====
-- api/internal/server: what the protocol surfaces share.
pub mod Status
pub mod Negotiate
pub mod Creds
pub mod Limits
pub mod Export
pub mod Rest
pub mod Grpc
