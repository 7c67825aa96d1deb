-- ===== src/DbFormat/Packing.antt =====
-- Internal keys are written and parsed without loss.
use squirrel.Prelude.{ℕ, ◌+◌, ◌-◌, ◌*◌, ◌^◌, ◌≤◌, ◌<◌, ◌≡◌, arith}
use squirrel.Prelude.{List, [], ◌++◌, length, ge→ltb, some, append-nil}
use squirrel.Prelude.{length-append, take-length_append, drop-length_append}
use squirrel.Prelude.Bits.{or_low, and_255}
use squirrel.Coding.{little_endian, put_fixed64, native_bytes, IsU64}
use squirrel.Coding.Fixed.{encode_fixed64_portable, decode_native64, length-native_bytes}
use squirrel.DbFormat.{ParsedInternalKey, pack_sequence_and_type, append_internal_key}
use squirrel.DbFormat.{extract_user_key, trailer, parse_internal_key}

-- The bounds that the asserts ask for.
abbrev pub IsPacked : ℕ → ℕ → Type 0
IsPacked seq t = (seq < 2 ^ 56) × (t ≤ 1)

pub pack_sum : (seq t : ℕ) → IsPacked seq t → pack_sequence_and_type seq t ≡ seq * 256 + t
unfolding pack_sequence_and_type
pack_sum seq t h = ground (arith, or_low 8 seq t (omega arith))

-- An internal key is the user key and eight more bytes.
abbrev pub with_trailer : List ℕ → ℕ → List ℕ
with_trailer u v = u ++ native_bytes 8 v

pub put_fixed64-with_trailer : (u : List ℕ) (v : ℕ) → put_fixed64 u v ≡ with_trailer u v
unfolding put_fixed64
put_fixed64-with_trailer u v = rw encode_fixed64_portable

pub length-with_trailer : (u : List ℕ) (v : ℕ) → length (with_trailer u v) ≡ length u + 8
length-with_trailer u v = omega (arith, length-append u (native_bytes 8 v), length-native_bytes 8 v)

user_length : (u : List ℕ) (v : ℕ) → length (with_trailer u v) - 8 ≡ length u
user_length u v = omega (arith, length-with_trailer u v)

pub extract_user_key-with_trailer : (u : List ℕ) (v : ℕ) → extract_user_key (with_trailer u v) ≡ u
unfolding extract_user_key
extract_user_key-with_trailer u v = rw user_length (take-length_append u (native_bytes 8 v))

pub trailer-with_trailer : (u : List ℕ) (v : ℕ) → IsU64 v → trailer (with_trailer u v) ≡ v
unfolding trailer
trailer-with_trailer u v h =
    rw (user_length, drop-length_append u (native_bytes 8 v))
      (rw append-nil at (decode_native64 little_endian v [] h))

pub append_internal_key-with_trailer :
    (k : ParsedInternalKey)
    → append_internal_key [] k
      ≡ with_trailer k.user_key (pack_sequence_and_type k.sequence k.value_type)
unfolding append_internal_key
append_internal_key-with_trailer k = put_fixed64-with_trailer k.user_key _

-- `ParseInternalKey` reads back what `AppendInternalKey` wrote, for every sequence number and
-- value type that the asserts allow.
pub parse-append_internal_key :
    (k : ParsedInternalKey)
    → IsPacked k.sequence k.value_type
    → parse_internal_key (append_internal_key [] k) ≡ some k
parse-append_internal_key k h =
    let v = pack_sequence_and_type k.sequence k.value_type in
    let sum = pack_sum k.sequence k.value_type h in
    rw append_internal_key-with_trailer (
      unfold parse_internal_key in
      rw
        (
          user_length,
          trailer-with_trailer k.user_key v (omega arith),
          take-length_append k.user_key (native_bytes 8 v),
          and_255,
          ge→ltb (length (with_trailer k.user_key v)) 8
              (omega (arith, length-with_trailer k.user_key v)),
          sum,
        )
        (ground arith))
