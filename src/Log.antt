-- ===== src/Log.antt =====
-- db/log_format.h, db/log_writer.* and db/log_reader.*: the log, a file of blocks of 32768 bytes.
-- Logical records are cut into physical ones, none of which crosses a block boundary.
pub mod Format
pub mod Layout
pub mod Writer
pub mod Reader
pub mod Session
pub mod RoundTrip
mod Runs
