-- ===== src/Lib.antt =====
-- Verification of squirrel, a port of LevelDB: the byte formats, the keys and their orders, the
-- write-ahead log, the memtable with its skip list and its arena, the cache, the names of files,
-- the Bloom filter, random numbers, and the blocks of table files. The repository has no database
-- on top of these parts yet.
--
-- The parts and the files that model them, with the paths of the repository:
--   Coding is for util/coding.h and util/coding.cpp, integers and slices as bytes. A range of
--     pointers is the list of the bytes in it, a failed Get is `none`, and the test of the
--     machine's byte order is a Boolean, `little_endian` where the rest of the library calls it.
--   Slice is for include/leveldb/slice.h. A slice is the list of its bytes.
--   Comparator is for include/leveldb/comparator.h as a record of operations and a record of laws,
--     and the byte-wise comparator of util/comparator.cpp, which fills both.
--   DbFormat is for db/dbformat.h and db/dbformat.cpp, internal keys over any comparator of user
--     keys.
--   Status is for include/leveldb/status.h and util/status.cpp.
--   Crc32c is for util/crc32c.h. `Extend` is the record `Crc` of an operation and its contract.
--   Env is for the files of include/leveldb/env.h, as records of operations, and util/env.cpp, which
--     reads and writes whole files. `IsReliable` and `IsReadable` say what a file does on which no
--     call fails.
--   Log is for db/log_format.h, db/log_writer.* and db/log_reader.*. Log/Writer and Log/Reader
--     have a definition for each member function, and for the branches of the longer ones;
--     Log/Layout is the format that both sides share, as a specification; Log/Session is a client
--     of both.
--   Hash and Bloom are for util/hash.*, util/bloom.cpp and include/leveldb/filter_policy.h.
--   Random is for util/random.h.
--   SkipList is for db/skiplist.h, over any type of keys and any comparator. A node is the number
--     of its cell, and a link is read from an explicit store. SkipList/State says when a list of
--     links represents a sequence of keys; SkipList/Insert, Find and Operations use it.
--   Memtable is for db/memtable.*, a skip list of encoded entries. Memtable/Newest is the abstract
--     view, the newest entry of a user key up to a sequence number.
--   Arena is for util/arena.*. What `new` returns is an argument, memory in no other block.
--   Cache is for util/cache.cpp: the hash table of handles here, with its proofs in the files from
--     Cache/Chains to Cache/Remove, a shard in Cache/Lru with its invariant in Cache/Usage, and the
--     shards in Cache/Sharded.
--   Logging is for util/logging.*, decimal numbers and escaped strings.
--   FileName is for db/filename.*, which names files and writes the file CURRENT through Env.
--   Table is for table/: Table/Format for block handles and footers, Table/BlockBuilder for the
--     writer of a block, Table/Block for its reader, Table/FilterBlock for the writer and the reader
--     of the block of filters, Table/Merger for the iterator over several others.
--
-- Prelude holds lists over the native numbers, their Boolean tests and bit operations.
--
-- A w-bit unsigned integer is a number, and an operation that may wrap has `% 2 ^ w` written out.
-- Bytes are numbers below 256, the signed char of a comparison or a conversion written out.
--
-- Loops: `AddRecord` has the length of its record plus two as fuel, since a round writes a byte at
-- least, but for one at the end of a block. The loop of `ReadPhysicalRecord` goes round twice at
-- most, since a second round has a whole block or has met the end of the file. The loop of
-- `ReadRecord` takes its fuel as an argument, as do the loops of `Prev`, `Seek` and `SeekToLast`
-- of a block's iterator. The number of restart points is enough for the other loops of that
-- iterator, each of which moves over one of them in a round. A search of the skip list has as fuel
-- the number of nodes and the height of the list, since a round goes right or down. `RandomHeight`
-- has the highest level, at which its loop stops. A decimal number below 2^64 has 20 digits at
-- most. `ReadFileToString` has a round for each 8192 bytes of the file, and two. `Resize` of the
-- cache doubles 4 at most 29 times in 32 bits, which serves up to 2^31 entries; eviction goes over
-- the list of the entries once. `StartBlock` of a filter block has a round for each range of 2 KB.
--
-- Not modelled: the operating system (util/env_*, the loggers, port/), options and object
-- lifetime, the tests, and threads, so that readers of the skip list run between the operations of
-- its writer and locks are left out; and, so far, whole tables, the two-level iterator, and
-- the tables of the checksum.
pub mod Prelude
pub mod Coding
pub mod Slice
pub mod Comparator
pub mod DbFormat
pub mod Status
pub mod Crc32c
pub mod Hash
pub mod Random
pub mod SkipList
pub mod Arena
pub mod Cache
pub mod Memtable
pub mod Logging
pub mod FileName
pub mod Bloom
pub mod Table
pub mod Env
pub mod Log
