-- ===== src/Glib/Concrete.antt =====
-- Plain containers that behave as the records for GLib's say: what the theorems assume of GLib can
-- be met, and the examples run on them.
pub mod ListSequence
pub mod ListTable
pub mod PlainList
