-- ===== src/Log/Reader/Physical.antt =====
-- db/log_reader.cpp: a reader, and the physical records that it reads.
use squirrel.Prelude.{
  ℕ, zero, suc, ◌+◌, ◌-◌, ◌*◌, ◌%◌, ◌^◌, bit_and, bit_or, Bool, true, false, ◌&&◌, not,
}
use squirrel.Prelude.{Option, none, some, List, [], ◌∷◌, ltb, leb, ◌==◌, if◌then◌else◌}
use squirrel.Prelude.{length, take, drop, codes}
use squirrel.Coding.{little_endian, decode_fixed32, byte_at}
use squirrel.Status.{Status, corruption, is_ok, make_status}
use squirrel.Crc32c.{Crc, value, unmask}
use squirrel.Env.{SequentialFile}
use squirrel.Log.Format.{zero_type}
use squirrel.Log.Format.{max_record_type, block_size, header_size}

-- What `ReadPhysicalRecord` returns beside a type.
abbrev pub eof_code : ℕ
eof_code = max_record_type + 1

abbrev pub bad_record : ℕ
bad_record = max_record_type + 2

-- uint64_t subtraction.
abbrev pub sub64 : ℕ → ℕ → ℕ
sub64 a b = (a + 2 ^ 64 - b) % 2 ^ 64

-- `const unsigned int type = header[6]`, where char is signed.
abbrev pub type_of_char : ℕ → ℕ
type_of_char b = if ltb b 128 then b else b + 2 ^ 32 - 256

-- The constants of a reader; `reporting` is false for a null reporter.
pub record ReaderOptions : Type 0 where
  pub reporting : Bool
  pub checksum : Bool
  pub initial_offset : ℕ

module _ (c : Crc) (file : SequentialFile) (o : ReaderOptions) where
  -- `reports` are the calls of the reporter, the last one first.
  pub record Reader : Type 0 where
    pub source : file.File
    pub buffer : List ℕ
    pub eof : Bool
    pub last_record_offset : ℕ
    pub end_of_buffer_offset : ℕ
    pub resyncing : Bool
    pub reports : List (ℕ × Status)

  abbrev pub new_reader : file.File → Reader
  new_reader source = record {
    source = source;
    buffer = [];
    eof = false;
    last_record_offset = 0;
    end_of_buffer_offset = 0;
    resyncing = ltb 0 o.initial_offset;
    reports = [];
  }

  unfoldable pub report_drop : ℕ → Status → Reader → Reader
  report_drop bytes reason r =
      if o.reporting
        && leb o.initial_offset (sub64 (sub64 r.end_of_buffer_offset (length r.buffer)) bytes)
      then record r { reports = (bytes, reason) ∷ r.reports }
      else r

  unfoldable pub report_corruption : ℕ → List ℕ → Reader → Reader
  report_corruption bytes reason r = report_drop bytes (make_status corruption reason []) r

  unfoldable pub skip_to_initial_block : Reader → Bool × Reader
  skip_to_initial_block r =
      let offset_in_block = o.initial_offset % block_size in
      let start = o.initial_offset - offset_in_block in
      let block_start_location =
        if ltb (block_size - 6) offset_in_block then (start + block_size) % 2 ^ 64 else start in
      let r1 = record r { end_of_buffer_offset = block_start_location } in
      let (skip_status, source) = file.skip block_start_location r.source in
      let r2 = record r1 { source = source } in
      if ltb 0 block_start_location
      then (if is_ok skip_status
          then (true, r2)
          else (false, report_drop block_start_location skip_status r2))
      else (true, r1)

  -- A type or code, the fragment, and the reader.
  abbrev pub Physical : Type 0
  Physical = ℕ × List ℕ × Reader

  -- `if (checksum_)`: whether the record of `length` bytes at the head of the buffer is refused.
  unfoldable pub crc_mismatch : List ℕ → ℕ → Bool
  crc_mismatch header len =
      let expected_crc = unmask (decode_fixed32 little_endian header) in
      let actual_crc = value c (take (1 + len) (drop 6 header)) in
      o.checksum && not (actual_crc == expected_crc)

  -- The loop's body from "Parse the header" on. A fragment that is not set keeps its old value.
  unfoldable pub parse_header : List ℕ → Reader → Physical
  parse_header fragment r =
      let header = r.buffer in
      let a = bit_and (byte_at header 4) 0xff in
      let b = bit_and (byte_at header 5) 0xff in
      let type = type_of_char (byte_at header 6) in
      let len = bit_or a (b * 2 ^ 8 % 2 ^ 32) in
      let cleared = record r { buffer = [] } in
      let r1 = record r { buffer = drop (header_size + len) header } in
      if ltb (length header) (header_size + len)
      then (if r.eof then (eof_code, fragment, cleared) else (
        bad_record,
        fragment,
        report_corruption (length header) (codes "bad record length") cleared,
      ))
      else if (type == zero_type) && (len == 0)
      then (bad_record, fragment, cleared)
      else if crc_mismatch header len
      then (
        bad_record,
        fragment,
        report_corruption (length header) (codes "checksum mismatch") cleared,
      )
      else if ltb (sub64 (sub64 (sub64 r.end_of_buffer_offset (length r1.buffer)) header_size) len)
          o.initial_offset
      then (bad_record, [], r1)
      else (type, take len (drop header_size header), r1)

  -- The read of the next block: whether it succeeded.
  unfoldable pub read_block : Reader → Bool × Reader
  read_block r =
      let (status, buffer, source) = file.read block_size r.source in
      let r1 = record r {
        source = source;
        buffer = buffer;
        end_of_buffer_offset = (r.end_of_buffer_offset + length buffer) % 2 ^ 64;
      } in
      if is_ok status
      then (true, (if ltb (length buffer) block_size then record r1 { eof = true } else r1))
      else (
        false,
        record (report_drop block_size status (record r1 { buffer = [] })) { eof = true },
      )

  -- The `while (true)` loop, which goes round again only after a block has been read.
  unfoldable pub physical_loop : ℕ → List ℕ → Reader → Option Physical
  physical_loop zero fragment r = none
  physical_loop (suc fuel) fragment r =
      let (good, r1) = read_block r in
      let again = physical_loop fuel fragment r1 in
      if ltb (length r.buffer) header_size
      then (if r.eof
          then some (eof_code, fragment, record r { buffer = [] })
          else if good
          then again
          else some (eof_code, fragment, r1))
      else some (parse_header fragment r)

  -- A second round either has a whole block or has met the end of the file.
  unfoldable pub read_physical_record : List ℕ → Reader → Option Physical
  read_physical_record = physical_loop 2
