-- ===== src/Attribute.antt =====
-- lib/attributes.c: attributes of objects and of groups, and the errors of a call in a status.
pub mod Status
pub mod Single
pub mod Reports
pub mod Queue
pub mod Fill
pub mod Values
pub mod Group
pub mod OverGroup
pub mod Popped
pub mod SetIndex
mod Tests
