-- ===== src/Table/Format.antt =====
-- table/format.h and table/format.cpp: block handles and footers.
pub mod RoundTrip
use squirrel.Prelude.{
  ℕ, ◌+◌, ◌-◌, ◌*◌, ◌/◌, ◌%◌, ◌^◌, ◌≡◌, bit_and, bit_or, Bool, Option, none, some,
}
use squirrel.Prelude.{
  List, [], ◌∷◌, ◌++◌, length, take, drop, replicate, ◌==◌, if◌then◌else◌, codes,
}
use squirrel.Coding.{little_endian, put_varint64, get_varint64, put_fixed32, decode_fixed32}
use squirrel.Status.{Status, ok, corruption, make_status, is_ok}

-- A new handle has all bits set in both fields.
pub record BlockHandle : Type 0 where
  pub offset : ℕ
  pub size : ℕ

abbrev pub new_block_handle : BlockHandle
new_block_handle = record { offset = 2 ^ 64 - 1; size = 2 ^ 64 - 1 }

abbrev pub max_encoding_length : ℕ
max_encoding_length = 10 + 10

unfoldable pub encode_handle : BlockHandle → List ℕ → List ℕ
encode_handle h dst = put_varint64 (put_varint64 dst h.offset) h.size

-- The status, the handle, which a failure may leave with a new offset, and what follows.
abbrev pub Decoded : Type 0
Decoded = Status × BlockHandle × List ℕ

abbrev bad_handle : Status
bad_handle = make_status corruption (codes "bad block handle") []

unfoldable pub decode_size : BlockHandle → List ℕ → Option (ℕ × List ℕ) → Decoded
decode_size h input none = (bad_handle, h, input)
decode_size h input (some (size, rest)) = (ok, record h { size = size }, rest)

unfoldable pub decode_offset : BlockHandle → List ℕ → Option (ℕ × List ℕ) → Decoded
decode_offset h input none = (bad_handle, h, input)
decode_offset h input (some (offset, rest)) =
    decode_size (record h { offset = offset }) rest (get_varint64 rest)

unfoldable pub decode_handle : BlockHandle → List ℕ → Decoded
decode_handle h input = decode_offset h input (get_varint64 input)

pub record Footer : Type 0 where
  pub metaindex_handle : BlockHandle
  pub index_handle : BlockHandle

abbrev pub encoded_length : ℕ
encoded_length = 2 * max_encoding_length + 8

abbrev pub table_magic_number : ℕ
table_magic_number = 0xdb4775248b80fb57

-- `std::string::resize`
unfoldable pub resize : ℕ → List ℕ → List ℕ
resize n dst = take n dst ++ replicate (n - length dst) 0

unfoldable pub encode_footer : Footer → List ℕ → List ℕ
encode_footer f dst =
    let handles = encode_handle f.index_handle (encode_handle f.metaindex_handle dst) in
    let padded = resize (2 * max_encoding_length) handles in
    put_fixed32 (put_fixed32 padded (bit_and table_magic_number 0xffffffff))
      (table_magic_number / 2 ^ 32)

-- The input has `encoded_length` bytes at least.
unfoldable pub magic_of : List ℕ → ℕ
magic_of input =
    let magic_lo = decode_fixed32 little_endian (drop (encoded_length - 8) input) in
    let magic_hi = decode_fixed32 little_endian (drop (encoded_length - 4) input) in
    bit_or (magic_hi * 2 ^ 32 % 2 ^ 64) magic_lo

unfoldable pub decode_footer : Footer → List ℕ → Status × Footer × List ℕ
decode_footer f input =
    let (s1, metaindex, input1) = decode_handle f.metaindex_handle input in
    let (s2, index, input2) = decode_handle f.index_handle input1 in
    if magic_of input == table_magic_number
    then (if is_ok s1
        then (
          s2,
          record { metaindex_handle = metaindex; index_handle = index },
          if is_ok s2 then drop encoded_length input else input2,
        )
        else (s1, record f { metaindex_handle = metaindex }, input1))
    else (make_status corruption (codes "not an sstable (bad magic number)") [], f, input)
