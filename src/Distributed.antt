-- ===== src/Distributed.antt =====
-- Timing of the distributed actors: core/src/distributed/{polling,scheduling}.rs.
pub mod Polling
pub mod Scheduling
mod Tests
