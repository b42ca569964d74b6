-- ===== src/Media.antt =====
-- apps/core-1.10-media: the policy on the addresses of media, and the lifecycle of evidence.
pub mod Url
pub mod Address
pub mod Access
pub mod Batch
pub mod Evidence
mod Tests
