-- ===== src/Sysfile.antt =====
-- lib/utility.c: the file that names the system's control files.
pub mod Format
pub mod Directives
pub mod Line
pub mod Config
pub mod Sound
pub mod Configured
mod Tests
