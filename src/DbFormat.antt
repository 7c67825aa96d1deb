-- ===== src/DbFormat.antt =====
-- db/dbformat.h and db/dbformat.cpp: internal keys, their order, and lookup keys. A `ValueType` is
-- its code; `DebugString` and the tuning constants of `config` are left out.
pub mod Packing
pub mod Order
pub mod Separators
pub mod Lookup
mod Runs
use Prim.Native.Nat.{Ordering}
use squirrel.Prelude.{ℕ, ◌+◌, ◌-◌, ◌*◌, ◌/◌, ◌%◌, ◌^◌, bit_and, bit_or, Bool, true, false, ◌&&◌}
use squirrel.Prelude.{
  Option, none, some, List, [], ◌∷◌, ◌++◌, ltb, leb, if◌then◌else◌, length, take, drop,
}
use squirrel.Coding.{little_endian, put_fixed64, encode_fixed64, decode_fixed64, encode_varint32}
use squirrel.Slice.{is_eq, is_lt}
use squirrel.Comparator.{Comparator}

abbrev pub ValueType : Type 0
ValueType = ℕ

abbrev pub type_deletion : ValueType
type_deletion = 0

abbrev pub type_value : ValueType
type_value = 1

abbrev pub value_type_for_seek : ValueType
value_type_for_seek = type_value

abbrev pub max_sequence_number : ℕ
max_sequence_number = 2 ^ 56 - 1

pub record ParsedInternalKey : Type 0 where
  pub user_key : List ℕ
  pub sequence : ℕ
  pub value_type : ValueType

unfoldable pub internal_key_encoding_length : ParsedInternalKey → ℕ
internal_key_encoding_length key = length key.user_key + 8

-- The asserts bound `seq` by `max_sequence_number` and `t` by `value_type_for_seek`.
unfoldable pub pack_sequence_and_type : ℕ → ValueType → ℕ
pack_sequence_and_type seq t = bit_or (seq * 2 ^ 8 % 2 ^ 64) t

unfoldable pub append_internal_key : List ℕ → ParsedInternalKey → List ℕ
append_internal_key result key =
    put_fixed64 (result ++ key.user_key) (pack_sequence_and_type key.sequence key.value_type)

-- Asserted to have 8 bytes at least.
unfoldable pub extract_user_key : List ℕ → List ℕ
extract_user_key internal_key = take (length internal_key - 8) internal_key

-- `DecodeFixed64(key.data() + key.size() - 8)`
unfoldable pub trailer : List ℕ → ℕ
trailer key = decode_fixed64 little_endian (drop (length key - 8) key)

unfoldable pub extract_value_type : List ℕ → ValueType
extract_value_type internal_key = bit_and (trailer internal_key) 0xff

unfoldable pub parse_internal_key : List ℕ → Option ParsedInternalKey
parse_internal_key internal_key =
    let num = trailer internal_key in
    let c = bit_and num 0xff in
    if ltb (length internal_key) 8
    then none
    else if leb c type_value
    then some (record {
      user_key = take (length internal_key - 8) internal_key;
      sequence = num / 2 ^ 8;
      value_type = c;
    })
    else none

module _ (user : Comparator) where
  unfoldable pub internal_compare : List ℕ → List ℕ → Ordering
  internal_compare akey bkey =
      let r = user.compare (extract_user_key akey) (extract_user_key bkey) in
      let anum = trailer akey in
      let bnum = trailer bkey in
      if is_eq r
      then (if ltb bnum anum then Ordering.lt else if ltb anum bnum then Ordering.gt else r)
      else r

  -- The user key has become shorter, and larger: it takes the earliest number.
  shortened : List ℕ → List ℕ → List ℕ → List ℕ
  shortened key user_key tmp =
      if ltb (length tmp) (length user_key) && is_lt (user.compare user_key tmp)
      then put_fixed64 tmp (pack_sequence_and_type max_sequence_number value_type_for_seek)
      else key

  unfoldable pub internal_shortest_separator : List ℕ → List ℕ → List ℕ
  unfolding shortened
  internal_shortest_separator start limit =
      let user_start = extract_user_key start in
      let user_limit = extract_user_key limit in
      shortened start user_start (user.find_shortest_separator user_start user_limit)

  unfoldable pub internal_short_successor : List ℕ → List ℕ
  unfolding shortened
  internal_short_successor key =
      let user_key = extract_user_key key in
      shortened key user_key (user.find_short_successor user_key)

  -- An `InternalKeyComparator` over a user comparator.
  abbrev pub internal_key_comparator : Comparator
  internal_key_comparator = record {
    compare = internal_compare;
    find_shortest_separator = internal_shortest_separator;
    find_short_successor = internal_short_successor;
  }

-- A `LookupKey`: the array from `start_` to `end_`, and where `kstart_` stands in it. Whether the
-- array is `space_` or allocated shows nowhere.
pub record LookupKey : Type 0 where
  pub start : List ℕ
  pub kstart : ℕ

-- The length goes to `EncodeVarint32` as a uint32_t.
unfoldable pub lookup_key : List ℕ → ℕ → LookupKey
lookup_key user_key s =
    let usize = length user_key in
    let klength = encode_varint32 ((usize + 8) % 2 ^ 32) in
    record {
      start =
          klength
          ++ (user_key
              ++ encode_fixed64 little_endian (pack_sequence_and_type s value_type_for_seek));
      kstart = length klength;
    }

unfoldable pub memtable_key : LookupKey → List ℕ
memtable_key k = k.start

unfoldable pub internal_key : LookupKey → List ℕ
internal_key k = drop k.kstart k.start

unfoldable pub user_key_of : LookupKey → List ℕ
user_key_of k = take (length k.start - k.kstart - 8) (drop k.kstart k.start)
