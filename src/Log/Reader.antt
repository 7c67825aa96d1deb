-- ===== src/Log/Reader.antt =====
-- db/log_reader.h and db/log_reader.cpp, over any file and any checksum.
pub mod Physical
pub mod Record
pub mod Parse
pub mod Checked
pub mod Blocks
pub mod Frames
pub mod Rounds
pub mod RoundTrip
