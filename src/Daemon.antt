-- ===== src/Daemon.antt =====
-- daemon/: the powerapi daemon, which holds the set requests of its clients and keeps each control
-- file at the request of highest priority.
pub mod Request
pub mod Files
pub mod Gov
pub mod FileIo
pub mod State
pub mod Worker
pub mod Order
pub mod Changes
pub mod Written
pub mod Sync
pub mod FirstChange
pub mod Client
pub mod Replace
pub mod Socket
pub mod Rollback
pub mod Gate
pub mod Ordered
pub mod Steps
pub mod Runs
pub mod Concrete
pub mod Scenario
pub mod Tests
pub mod RunTests
