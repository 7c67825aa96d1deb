-- ===== src/Log/Format.antt =====
-- db/log_format.h.
use squirrel.Prelude.{ℕ}

abbrev pub RecordType : Type 0
RecordType = ℕ

abbrev pub zero_type : RecordType
zero_type = 0

abbrev pub full_type : RecordType
full_type = 1

abbrev pub first_type : RecordType
first_type = 2

abbrev pub middle_type : RecordType
middle_type = 3

abbrev pub last_type : RecordType
last_type = 4

abbrev pub max_record_type : RecordType
max_record_type = 4

abbrev pub block_size : ℕ
block_size = 32768

-- Checksum (4 bytes), length (2 bytes), type (1 byte).
abbrev pub header_size : ℕ
header_size = 7
