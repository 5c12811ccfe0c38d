-- ===== src/Service.antt =====
-- api/internal/service/service.go: the business logic behind every protocol.
pub mod Request
pub mod Select
pub mod Fanout
pub mod Dedupe
pub mod Text
pub mod Topic
