-- ===== src/Nlog3.antt =====
-- nlog3: the crash-safe record log of src/nvram/nlog3.c and include/qoraal-flash/nvram/nlog3.h.
pub mod Crc
pub mod Format
pub mod Layout
pub mod Sector
pub mod Record
pub mod Find
pub mod Stage
pub mod Append
pub mod Init
pub mod Iterator
mod Runs
mod Samples
mod Tests
