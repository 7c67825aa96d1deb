-- ===== src/Log/Writer.antt =====
-- db/log_writer.h and db/log_writer.cpp, over any file and any checksum.
pub mod Loop
use squirrel.Prelude.{ℕ, zero, suc, ◌+◌, ◌-◌, ◌/◌, ◌%◌, ◌^◌, bit_and, Bool, true, false, ◌&&◌, not}
use squirrel.Prelude.{Option, none, some, List, [], ◌∷◌, ◌++◌, ltb, ◌==◌, if◌then◌else◌}
use squirrel.Prelude.{length, take, drop, replicate}
use squirrel.Coding.{little_endian, encode_fixed32}
use squirrel.Status.{Status, ok, is_ok}
use squirrel.Crc32c.{Crc, value, mask}
use squirrel.Env.{WritableFile}
use squirrel.Log.Format.{RecordType, full_type, first_type, middle_type, last_type}
use squirrel.Log.Format.{block_size, header_size}

abbrev pub fragment_type : Bool → Bool → RecordType
fragment_type true true = full_type
fragment_type true false = first_type
fragment_type false true = last_type
fragment_type false false = middle_type

module _ (c : Crc) where
  -- What `InitTypeCrc` stores at `t`.
  abbrev pub type_crc : RecordType → ℕ
  type_crc t = value c (t ∷ [])

  -- The header that `EmitPhysicalRecord` formats.
  unfoldable pub record_header : RecordType → List ℕ → List ℕ
  record_header t ptr =
      let n = length ptr in
      encode_fixed32 little_endian (mask (c.extend (type_crc t) ptr))
      ++ (bit_and n 0xff ∷ (n / 2 ^ 8 % 256) ∷ t ∷ [])

module _ (c : Crc) (file : WritableFile) where
  -- `type_crc_` is a table of constants, below.
  pub record Writer : Type 0 where
    pub dest : file.File
    pub block_offset : ℕ

  -- The constructor for an empty file, and the one for a file of `dest_length` bytes.
  abbrev pub new_writer : file.File → Writer
  new_writer dest = record { dest = dest; block_offset = 0 }

  abbrev pub reopen_writer : file.File → ℕ → Writer
  reopen_writer dest dest_length = record { dest = dest; block_offset = dest_length % block_size }

  -- The three calls of the file; each is made if those before it succeeded.
  flush_after : Status × file.File → Status × file.File
  flush_after (s, d) = if is_ok s then file.flush d else (s, d)

  append_after : List ℕ → Status × file.File → Status × file.File
  append_after ptr (s, d) = if is_ok s then flush_after (file.append ptr d) else (s, d)

  unfoldable pub emit_physical_record : RecordType → List ℕ → Writer → Status × Writer
  unfolding append_after flush_after
  emit_physical_record t ptr w =
      let (s, dest) = append_after ptr (file.append (record_header c t ptr) w.dest) in
      (s, record { dest = dest; block_offset = w.block_offset + header_size + length ptr })

  -- Where no header fits, the rest of the block is filled with zeros, and the status of that write
  -- is dropped.
  unfoldable pub switch_block : Writer → Writer
  switch_block w =
      let leftover = block_size - w.block_offset in
      let filled = (file.append (replicate leftover 0) w.dest).1 in
      if ltb leftover header_size
      then record { dest = if ltb 0 leftover then filled else w.dest; block_offset = 0 }
      else w

  -- One round of the loop: the status, what is left, and the writer.
  unfoldable pub emit_fragment : Bool → List ℕ → Writer → Status × List ℕ × Writer
  emit_fragment begin left w =
      let w1 = switch_block w in
      let avail = block_size - w1.block_offset - header_size in
      let fragment_length = if ltb (length left) avail then length left else avail in
      let end = length left == fragment_length in
      let emitted = emit_physical_record (fragment_type begin end) (take fragment_length left) w1 in
      (emitted.0, drop fragment_length left, emitted.1)

  -- The `do … while` loop. `none` is no result of the program: the fuel ran out.
  unfoldable pub add_loop : ℕ → Bool → List ℕ → Writer → Option (Status × Writer)
  add_loop zero begin left w = none
  add_loop (suc fuel) begin left w =
      let (s, rest, w') = emit_fragment begin left w in
      let again = add_loop fuel false rest w' in
      if is_ok s && ltb 0 (length rest) then again else some (s, w')

  -- A round writes a byte at least, but for one round before a block boundary.
  unfoldable pub add_record : List ℕ → Writer → Option (Status × Writer)
  add_record slice w = add_loop (length slice + 2) true slice w
