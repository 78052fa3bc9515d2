-- ===== src/Lib.antt =====
-- The storage engine of Mizu, engine/lsmtree: a log-structured merge tree in C++17.
--
-- The engine writes each batch of operations as one record of a write-ahead log and applies it to a
-- memtable; full memtables become tables of level 0, and compactions merge tables into the next level.
-- Every version of a key is stored under an internal key, the user key with its sequence number and
-- type. Reads and iterators look at the versions that are not newer than their sequence.
--
-- Which file is about which part, with paths from the repository's root:
--
--   Base          shared names, list, bit and order lemmas; Base.Order is the order of byte strings
--                 that `std::string_view::compare` documents
--   Status        engine/lsmtree/include/lsmtree/db.h and src/util/status.cc: `Status`, and `Result`
--                 for a function that returns a status and fills an output parameter
--   Coding        engine/lsmtree/src/util/coding.cc: fixed-width integers, little endian
--   Crc           engine/lsmtree/src/util/crc32c.cc
--   InternalKey   engine/lsmtree/src/db/internal_key.{h,cc}; Format is about encoding and parsing,
--                 Order about `InternalKeyLess`
--   WriteBatch    engine/lsmtree/src/db/write_batch.cc, write_batch_internal.h and
--                 write_batch_codec.cc; Payload describes the bytes of a payload on its own
--   Wal           engine/lsmtree/src/wal: Writer is wal_writer.cc, Reader is wal_reader.cc; Format
--                 describes a log as the bytes of its records and the scan that recovers them
--   Entries       the specification: sorted versions, and what a read at a sequence sees of them
--   DbIterator    engine/lsmtree/src/db/db_iterator.cc on top of any InternalIterator
--   Compaction    engine/lsmtree/src/db/compaction.cc: Pick chooses the tables, Loop is the loop of
--                 `buildCompactionTables` with `BaseLevelChecker`
--   MergingIterator engine/lsmtree/src/db/merging_iterator.{h,cc}; Merge and Sorted are about the merge of
--                 sorted entries, Compacted about the loop of a compaction on top of the iterator
--   FileName      engine/lsmtree/src/db/filename.{h,cc}
--   Snapshot      engine/lsmtree/src/db/snapshot.cc
--   Manifest      engine/lsmtree/src/db/manifest.{h,cc}: checks, encoding and decoding of the state that
--                 a manifest stores; File is about writing the file, Atomic about what a crash leaves
--   Version       engine/lsmtree/src/db/version.{h,cc}: reads through the levels, and the version behind
--                 a compaction; OutputWriter is `CompactionOutputWriter` of compaction.cc, Outputs,
--                 Written and Built are about its outputs, and Compacted puts it together with the plan and the loop
--                 of Compaction
--   TableFormat   engine/lsmtree/src/table/table_format.cc: block handles and the footer of a table
--   BloomFilter   engine/lsmtree/src/table/bloom_filter.cc
--   Tests         runs at concrete inputs, and the main theorems applied to such inputs
--
-- How code becomes definitions. A byte string is a list of natural numbers; 32-bit and 64-bit
-- arithmetic keeps its wrap-around where it can wrap. An object is a record of its fields, and a method
-- that changes it returns the new record. A function that returns a Status and fills an output is a
-- function to `Result`. A loop over a container is recursion on a list, with a definition of its own.
--
-- Input and output. The system calls of the log and of `writeManifest` take their outcomes from a list of
-- `IoOutcome`: a number of bytes, EINTR, another errno, or that the process was killed inside the call,
-- behind its effect or behind a number of bytes. When the list is empty the process has stopped before
-- the call had an effect. So a theorem over all lists is about every short write and error, and about a
-- process that is killed anywhere. A manifest's file remembers whether it was synced behind its last
-- write. The text of an errno and of an offset is a parameter.
--
-- Iterators. `Input` is what an InternalIterator delivers from its position on, ending with its end or
-- with an error. The input's own seek is a parameter of `DbIterator.seek`. A `Child` of a
-- merging iterator adds to it what it delivers behind its `seekToFirst` and `seek`. A priority queue is the
-- list of the indices in it, in any order, and `top` gives the index that the documentation promises.
--
-- Levels. The cursors of `BaseLevelChecker` are the tables that are left of each level. `std::lower_bound`
-- is modelled by its documented result on a partitioned range: the theorems about it ask for tables
-- whose largest user keys do not descend. The tables of a version carry the read of
-- their reader as a function; which versions a table's file holds is an argument of the theorems.
--
-- Fuel. `digits_of`, which is `std::to_string`, runs on the 20 digits of a 64-bit number; `scan_all` runs on the length of the log and one more, since each record takes at least a header;
-- `collect` and `delivered` run on the number of entries and one more. That this is enough is proved where it is used.
--
-- What is not modelled: file descriptors and directories, and what a power loss does to the log; reading a manifest's file; locks and threads; the memtable, the
-- blocks of tables on disk and the database that puts the parts together; the C interface; and the Go
-- layers of the repository (raft, kv, client, cmd, proto).
pub mod Base
pub mod Status
pub mod Coding
pub mod InternalKey
pub mod WriteBatch
pub mod Crc
pub mod Wal
pub mod Entries
pub mod DbIterator
pub mod Compaction
pub mod MergingIterator
pub mod FileName
pub mod Snapshot
pub mod TableFormat
pub mod Manifest
pub mod Version
pub mod BloomFilter
pub mod Tests
