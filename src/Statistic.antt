-- ===== src/Statistic.antt =====
-- lib/statistics.c: the statistics that a thread of the library computes from an attribute.
pub mod Calculate
pub mod Calls
pub mod Extremes
pub mod Rounds
pub mod Reduced
pub mod Summary
pub mod Monitored
pub mod Period
pub mod Mixed
mod Tests
