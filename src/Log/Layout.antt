-- ===== src/Log/Layout.antt =====
-- How a logical record lies in the file, whoever writes or reads it: the specification that the
-- writer and the reader share.
use squirrel.Prelude.{
  ℕ, ◌+◌, ◌-◌, ◌≤◌, ◌<◌, ◌≡◌, Bool, true, false, List, [], ◌++◌, ltb, if◌then◌else◌,
}
use squirrel.Prelude.{length, replicate}
use squirrel.Crc32c.{Crc}
use squirrel.Log.Format.{RecordType, block_size, header_size}
use squirrel.Log.Writer.{record_header, fragment_type}

-- Where the next header goes, and the zeros in front of it, at offset `o` of a block.
abbrev pub start : ℕ → ℕ
start o = if ltb (block_size - o) header_size then 0 else o

abbrev pub padding : ℕ → List ℕ
padding o = if ltb (block_size - o) header_size then replicate (block_size - o) 0 else []

-- The payload that fits behind that header.
abbrev pub room : ℕ → ℕ
room o = block_size - start o - header_size

abbrev pub frame : Crc → RecordType → List ℕ → List ℕ
frame c t payload = record_header c t payload ++ payload

-- As many fragments at most hold `payload` from offset `o` on: the first one may hold no byte.
abbrev pub rounds : ℕ → List ℕ → ℕ
rounds o payload = if ltb 0 (room o) then length payload + 1 else length payload + 2

-- `Laid c o begin payload bytes o'`: from offset `o` of a block on, `bytes` hold the fragments of
-- `payload`, the first of which begins its record if `begin`, and end at offset `o'` of a block.
pub data Laid (c : Crc) : ℕ → Bool → List ℕ → List ℕ → ℕ → Type 0 where
  whole :
      (o : ℕ) (begin : Bool) (payload : List ℕ)
      → length payload ≤ room o
      → Laid c o begin payload
          (padding o ++ frame c (fragment_type begin true) payload)
          (start o + header_size + length payload)
  cut :
      (o : ℕ) (begin : Bool) (front rest bytes : List ℕ) (o' : ℕ)
      → length front ≡ room o
      → 0 < length rest
      → Laid c block_size false rest bytes o'
      → Laid c o begin
          (front ++ rest)
          (padding o ++ (frame c (fragment_type begin false) front ++ bytes))
          o'
