-- ===== src/Glib.antt =====
-- What the program uses of GLib, which is not part of the repository: each container is a record
-- of operations and of the documented behaviour that the code relies on.
pub mod Sequence
pub mod HashTable
pub mod SortedList
pub mod Concrete
