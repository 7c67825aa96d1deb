-- ===== src/Table.antt =====
-- table/: the format of a table file, and the blocks it consists of.
pub mod Format
pub mod BlockBuilder
pub mod Block
pub mod FilterBlock
pub mod Merger
mod Runs
