-- ===== src/Domain.antt =====
-- internal/domain: the records and enumerations that the components share.
pub mod Jobs
pub mod Memories
