-- ===== src/Memtable.antt =====
-- db/memtable.h and db/memtable.cpp: the memtable, a skip list of encoded entries. A
-- `const char*` into the arena is the list of the bytes that it points to: an entry never changes
-- once it is written. The space that the arena uses is left out.
mod Runs
pub mod Entry
pub mod Compare
pub mod Lookup
pub mod Place
pub mod Refinement
pub mod Newest
use Prim.Native.Nat.{Ordering}
use mathlib.Core.Option
use squirrel.Prelude.{
  ℕ, ◌+◌, ◌-◌, ◌%◌, ◌^◌, bit_and, Bool, true, false, Option, none, some, List, [], ◌∷◌, ◌++◌,
}
use squirrel.Prelude.{leb, ◌==◌, if◌then◌else◌, length, take, drop}
use squirrel.Coding.{
  little_endian, get_varint32, encode_varint32, put_varint32, encode_fixed64, decode_fixed64,
  varint_length,
}
use squirrel.Slice.{is_eq}
use squirrel.Status.{Status, make_status, not_found}
use squirrel.Comparator.{Comparator}
use squirrel.DbFormat.{
  ValueType, type_value, type_deletion, pack_sequence_and_type, internal_compare,
}
use squirrel.DbFormat.{LookupKey, memtable_key, user_key_of}
use squirrel.SkipList.{SkipList, Ptr, new_skip_list, insert, key_of}
use squirrel.SkipList.Iterator

pub record MemTable : Type 0 where
  pub refs : ℕ
  pub table : SkipList (List ℕ)

-- The pointer behind the varint at `p`, of which at most five bytes are read, and its value.
advance : List ℕ → Option (ℕ × List ℕ) → ℕ × List ℕ
advance p none = (0, [])
advance p (some (len, rest)) = (len, drop (length (take 5 p) - length rest) p)

-- `GetVarint32Ptr(p, p + 5, &len)`. On corrupted bytes it would be NULL, with no length, which the
-- source assumes not to happen.
unfoldable pub varint_at : List ℕ → ℕ × List ℕ
unfolding advance
varint_at p = advance p (get_varint32 (take 5 p))

unfoldable pub slice_at : List ℕ → List ℕ
unfolding varint_at
slice_at p = let (len, p') = varint_at p in take len p'

-- `KeyComparator`
unfoldable pub key_compare : Comparator → List ℕ → List ℕ → Ordering
key_compare user aptr bptr = internal_compare user (slice_at aptr) (slice_at bptr)

unfoldable pub encode_key : List ℕ → List ℕ
encode_key key = put_varint32 [] (length key % 2 ^ 32) ++ key

unfoldable pub new_mem_table : MemTable
new_mem_table = record { refs = 0; table = new_skip_list [] }

unfoldable pub ref : MemTable → MemTable
ref m = record m { refs = m.refs + 1 }

-- `none` is the table deleted. The count is asserted to be positive.
unfoldable pub unref : MemTable → Option MemTable
unref m = let left = m.refs - 1 in if leb left 0 then none else some (record m { refs = left })

-- The bytes that `Add` writes, and the size that it asks the arena for.
unfoldable pub encode_entry : ℕ → ValueType → List ℕ → List ℕ → List ℕ
encode_entry s type key value =
    encode_varint32 ((length key + 8) % 2 ^ 32)
    ++ (key
        ++ (encode_fixed64 little_endian (pack_sequence_and_type s type)
            ++ (encode_varint32 (length value % 2 ^ 32) ++ value)))

unfoldable pub encoded_len : List ℕ → List ℕ → ℕ
encoded_len key value =
    let internal_key_size = length key + 8 in
    varint_length internal_key_size
    + internal_key_size
    + varint_length (length value)
    + length value

-- What `Get` returns: its result, `*value` and `*s`.
pub record GetResult : Type 0 where
  pub found : Bool
  pub value : List ℕ
  pub status : Status

module _ (user : Comparator) where
  -- `none` means that the search of the table ran out of fuel.
  unfoldable pub add : ℕ → ValueType → List ℕ → List ℕ → MemTable → Option MemTable
  add s type key value m =
      Option.map (λ t. record m { table = t })
        (insert (key_compare user) (encode_entry s type key value) m.table)

  -- The entry at which the iterator stands, for the user key `target`. `value` and `status` are
  -- what the caller's variables hold before.
  unfoldable pub read_entry : List ℕ → List ℕ → List ℕ → Status → GetResult
  read_entry entry target value status =
      let (key_length, key_ptr) = varint_at entry in
      let tag = decode_fixed64 little_endian (drop (key_length - 8) key_ptr) in
      let missing : GetResult = record { found = false; value = value; status = status } in
      if is_eq (user.compare (take (key_length - 8) key_ptr) target)
      then if bit_and tag 0xff == type_value
        then record { found = true; value = slice_at (drop key_length key_ptr); status = status }
        else if bit_and tag 0xff == type_deletion
        then record { found = true; value = value; status = make_status not_found [] [] }
        else missing
      else missing

  unfoldable pub get_at : SkipList (List ℕ) → List ℕ → List ℕ → Status → Ptr → GetResult
  get_at table target value status none = record { found = false; value = value; status = status }
  get_at table target value status (some x) = read_entry (key_of table x) target value status

  unfoldable pub get : LookupKey → List ℕ → Status → MemTable → Option GetResult
  get key value status m =
      Option.map (get_at m.table (user_key_of key) value status)
        (Iterator.seek (key_compare user) (memtable_key key) m.table)

-- `MemTableIterator`, whose state is that of the iterator of the skip list.
unfoldable pub iterator_seek : Comparator → List ℕ → MemTable → Option Ptr
iterator_seek user k m = Iterator.seek (key_compare user) (encode_key k) m.table

unfoldable pub iterator_key : MemTable → ℕ → List ℕ
iterator_key m x = slice_at (key_of m.table x)

unfoldable pub iterator_value : MemTable → ℕ → List ℕ
iterator_value m x = let (len, p) = varint_at (key_of m.table x) in slice_at (drop len p)
