-- ===== src/Upload.antt =====
-- Chunked uploads of services/storage-service: the sessions and the call that uploads a chunk.
pub mod Session
pub mod Handle
mod Accepted
mod Progress
mod Completion
pub mod Runs
mod Tests
