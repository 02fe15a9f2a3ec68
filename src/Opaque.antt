-- ===== src/Opaque.antt =====
-- lib/opaque.c and opaque.h: the opaque references that stand for the library's structures.
-- `Opaque.Key` has the keys, `Opaque.Map` the map from keys to structures, `Opaque.Insert` what an
-- insertion and a removal do, `Opaque.Zero` what the random number 0 does.
pub mod Key
pub mod Map
pub mod Insert
pub mod Zero
pub mod Frame
pub mod Tests
