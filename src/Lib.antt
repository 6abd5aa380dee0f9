-- ===== src/Lib.antt =====
-- qoraal-flash: crash-safe storage on NOR flash.
--
-- The library keeps logs, key/value volumes, typed settings and counters in flash memory. All
-- parts reach the memory by three calls (include/qoraal-flash/qoraal.h) through a driver that the
-- application registers. nlog3 (src/nvram/nlog3.c) is a log of records over a ring of sectors: a
-- sector has a header with a sequence number, a record is committed by a last write of its state
-- word, and the next sector is staged before the current one is left. regenum (src/regenum.c)
-- keeps the enum types that the registry prints and parses. nvol3 (src/nvram/nvol3.c) is a
-- key/value volume over two sectors: records are appended to one of them, a lookup table in memory
-- finds the last one of a key, and a full sector is swapped for the other. tallies
-- (src/tallies.c) are counters that modules raise in memory, and that a task writes to a volume of
-- nvol3 a few at a time.
--
-- Files and code:
--   Common          the names, lists, 32-bit words and results that the other files share
--   Flash           qoraal_flash_read, qoraal_flash_write and qoraal_flash_erase; the driver is a
--                   parameter, a record of optional functions on a store
--   Flash/Nor       what is relied on of a driver: writes clear bits, erases of whole pages set them,
--                   the rest of the memory stays
--   Flash/Simulator the memory of test/platform.c (POSIX) as such a driver
--   Nlog3           src/nvram/nlog3.c, one file per group of functions: Crc, Format (the headers and
--                   their bytes), Layout (addresses and sizes), Sector (erase, headers), Record
--                   (nlog3_record_read, nlog3_sector_scan), Find (the three searches), Stage (end
--                   marker, staging, advance), Append (nlog3_append), Init (nlog3_init,
--                   nlog3_reset), Iterator (the walks and nlog3_iterator_read)
--   Regenum         src/regenum.c on a heap of type objects
--   Nvol3           src/nvram/nvol3.c: Dictionary (the dictionary library as an interface), Volume
--                   (the configuration, the instance), Slot (one record on the flash), Table (the
--                   lookup table), Sector (the head of a sector, construct_lookup_table), Set
--                   (record_set, record_get, nvol3_record_delete), Swap (move_sector, swap_sectors,
--                   nvol3_repair, nvol3_record_set), Load (init_sectors, nvol3_load, nvol3_validate,
--                   nvol3_reset), Entry (the entry
--                   functions). View is what a sector holds as a map from keys to records, Loaded
--                   a loaded volume and its operations as operations of that map
--   Tallies         src/tallies.c over the calls of nvol3 as an interface: Register (the list of the
--                   blocks), Count (the calls that count and read back), Persist (entry_write and
--                   the passes), Load (block_load), Lifecycle (tallies_init, tallies_start,
--                   tallies_stop, tallies_reset). Stored is what a volume has to do for the
--                   counters, Counters the counters of the registered blocks, Persist/Steps the
--                   steps of entry_write with other threads between them, OnVolume the volumes of
--                   Nvol3 as an instance of that interface
-- The functions have the names of the code without the prefixes nlog3_, regenum_, NLOG3_ and NVOL3_. The files
-- below a part's folder hold its proofs, Tests, Runs and Samples the theorems at concrete inputs.
--
-- Correspondence. A command takes the log and the store of the driver and leaves both, with a
-- value or with the status that the code returns; a function that only reads takes them and gives
-- a result. A command that stops keeps the changes made so far. Words are numbers with `% 2 ^ 32`
-- written out, and stand in memory in little-endian order. Pointers to the log, the iterator and
-- out parameters are not null; the descriptor, the payload and the buffer may be.
-- CFG_NLOG3_PAYLOAD_CRC is the field payload_crc of the platform. The return codes of the error
-- header, which is not part of the repository, are distinct constructors; a driver's other codes
-- are `other`, and count as errors. E_NOTFOUND of nvol3_entry_delete follows the return value of
-- dictionary_remove, which is not 0 where the dictionary has the key. In regenum strings are lists of characters without the final zero, a value's name
-- is not null, and the out parameter that is set to "" on an error is not part of the result.
-- In nvol3 a dictionary is a record of functions; what its calls promise are the laws of a map, and
-- its values and order are its own. Which allocations succeed is a list in the state. The callback
-- of the application is known by what it returns for a record. A dictionary function on a null
-- dictionary has no defined result, the status `undefined`. A check of the debug macros returns its
-- code where it fails, as in a build with checks. Sizes have 32 bits, slot numbers 16.
--
-- In tallies a block is known by its address, the linked list by the addresses in its order, and
-- every block has arrays of its own; dates and times are those of qoraal's clock, an interface.
-- Mutexes are not part of the state: each part of a function between two of them is one step.
--
-- Bounds. A loop over the sectors takes `sectorcount` rounds, as in the code. The scan of a sector
-- takes one round more than the sector has bytes, the loop of nlog3_iterator_read one more than
-- the payload has. The walks of regenum take the number of rounds as an argument.
-- The loops of tallies take a round for every entry of a block; what a pass counts has 32 bits, and
-- its theorems suppose fewer counters than that.
-- The loops of nvol3 over the slots take max_records rounds, as in the code; the theorems have
-- volumes with fewer than 2 ^ 16 slots.
--
-- Not modelled: nvol3_record_first, nvol3_record_next and nvol3_status_get, nlog2, the registry,
-- syslog, tallies_status_get and tallies_log_status, the shell commands, and threads and locks but
-- for the threads that count while a tally is written. A loss of power in the middle of a
-- single write of the driver is not modelled either; between two writes it is.
pub mod Common
pub mod Flash
pub mod Nlog3
pub mod Nvol3
pub mod Regenum
pub mod Tallies
