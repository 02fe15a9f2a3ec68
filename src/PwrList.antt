-- ===== src/PwrList.antt =====
-- lib/pwr_list.c: growing arrays of integers, doubles and strings, with the length of their longest
-- printed value. `PwrList.Array` has the operations, `PwrList.Growth` their laws.
pub mod Array
pub mod Growth
pub mod Extremes
pub mod Access
pub mod Strings
pub mod Tests
