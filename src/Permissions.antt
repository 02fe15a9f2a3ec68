-- ===== src/Permissions.antt =====
-- common/permissions.c: the file of the users who may change power attributes.
pub mod Scan
pub mod Files
pub mod Printed
pub mod Users
pub mod Copy
mod Tests
