-- ===== src/Nvol3.antt =====
-- nvol3: the key/value volumes of src/nvram/nvol3.c and include/qoraal-flash/nvram/nvol3.h.
pub mod Dictionary
pub mod Volume
pub mod Slot
pub mod Table
pub mod Sector
pub mod Set
pub mod Swap
pub mod Entry
pub mod Load
pub mod Loaded
pub mod View
pub mod Samples
pub mod Tests
