-- ===== src/Object.antt =====
-- lib/object.c: the objects of the hierarchy and their attributes.
pub mod Tree
pub mod Values
pub mod Flat
pub mod Verdict
pub mod Forward
pub mod Sample
pub mod Names
pub mod Bits
pub mod Meta
pub mod MetaApi
pub mod Formats
pub mod Lengths
pub mod Listed
pub mod Named
mod Tests
mod MetaTests
