-- ===== src/Table/Block.antt =====
-- table/block.cpp: the entries of a block.
pub mod Decode
pub mod Entries
pub mod Iter
pub mod Scan
pub mod RoundTrip
use squirrel.Prelude.{ℕ, ◌+◌, ◌-◌, ◌*◌, ◌%◌, ◌^◌, ◌≡◌, bit_or, Bool, Option, none, some}
use squirrel.Prelude.{List, [], ◌∷◌, ◌++◌, length, take, drop, ltb, if◌then◌else◌}
use squirrel.Coding.{get_varint32, byte_at}

-- What `DecodeEntry` stores, and the bytes from the returned pointer to the limit.
pub record Entry : Type 0 where
  pub shared : ℕ
  pub non_shared : ℕ
  pub value_length : ℕ
  pub rest : List ℕ

-- The three calls of `GetVarint32Ptr`.
unfoldable pub slow_value_length : ℕ → ℕ → Option (ℕ × List ℕ) → Option Entry
slow_value_length shared non_shared none = none
slow_value_length shared non_shared (some (value_length, p)) =
    some
      (record { shared = shared; non_shared = non_shared; value_length = value_length; rest = p })

unfoldable pub slow_non_shared : ℕ → Option (ℕ × List ℕ) → Option Entry
slow_non_shared shared none = none
slow_non_shared shared (some (non_shared, p)) = slow_value_length shared non_shared (get_varint32 p)

unfoldable pub slow_shared : Option (ℕ × List ℕ) → Option Entry
slow_shared none = none
slow_shared (some (shared, p)) = slow_non_shared shared (get_varint32 p)

-- The last test of `DecodeEntry`, on uint32_t.
unfoldable pub check_entry : Option Entry → Option Entry
check_entry none = none
check_entry (some e) =
    if ltb (length e.rest % 2 ^ 32) ((e.non_shared + e.value_length) % 2 ^ 32) then none else some e

-- `p` is the bytes from the pointer to the limit; `none` is NULL.
unfoldable pub decode_entry : List ℕ → Option Entry
decode_entry p =
    let b0 = byte_at p 0 in
    let b1 = byte_at p 1 in
    let b2 = byte_at p 2 in
    let fast : Entry = record {
      shared = b0;
      non_shared = b1;
      value_length = b2;
      rest = drop 3 p;
    } in
    let slow = slow_shared (get_varint32 p) in
    if ltb (length p) 3
    then none
    else check_entry (if ltb (bit_or (bit_or b0 b1) b2) 128 then some fast else slow)
