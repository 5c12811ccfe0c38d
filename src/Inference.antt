-- ===== src/Inference.antt =====
-- api/internal/inference: batching for the ML worker (batch.go) and the gRPC client (client.go).
pub mod Batch
pub mod Client
pub mod Chunks
pub mod Classified
pub mod Labels
pub mod Groups
pub mod Writes
pub mod Scored
pub mod Rows
