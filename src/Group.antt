-- ===== src/Group.antt =====
-- lib/group.c, the groups themselves: a group keeps its objects in a GSequence sorted by address.
-- `Group.Walk` has the set operations on two sorted sequences, `Group.Sets` and `Group.Algebra`
-- their laws, `Group.Member` the laws of insertion and removal.
pub mod Walk
pub mod Sorted
pub mod Sets
pub mod Refine
pub mod Ops
pub mod Order
pub mod Member
pub mod Algebra
pub mod Api
pub mod Calls
pub mod References
pub mod Created
pub mod Combined
pub mod Objects
pub mod Destroyed
pub mod ApiTests
pub mod Tests
