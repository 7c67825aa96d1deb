-- ===== src/DbFormat/Lookup.antt =====
-- The three slices of a lookup key.
use squirrel.Prelude.{ℕ, ◌+◌, ◌-◌, ◌%◌, ◌^◌, ◌≡◌, sym, ◌∙◌, arith}
use squirrel.Prelude.{List, [], ◌++◌, length}
use squirrel.Prelude.{length-append, take-length_append, drop-length_append}
use squirrel.Coding.{encode_varint32, put_varint32, native_bytes, put_length_prefixed_slice}
use squirrel.Coding.Fixed.{encode_fixed64_portable}
use squirrel.DbFormat.{append_internal_key, lookup_key, memtable_key, internal_key, user_key_of}
use squirrel.DbFormat.{pack_sequence_and_type, value_type_for_seek, ParsedInternalKey}
use squirrel.DbFormat.Packing.{with_trailer, length-with_trailer, append_internal_key-with_trailer}

abbrev pub seek_key : List ℕ → ℕ → ParsedInternalKey
seek_key u s = record { user_key = u; sequence = s; value_type = value_type_for_seek }

internal_key-with_trailer :
    (u : List ℕ) (s : ℕ)
    → internal_key (lookup_key u s) ≡ with_trailer u (pack_sequence_and_type s value_type_for_seek)
unfolding internal_key lookup_key
internal_key-with_trailer u s = rw encode_fixed64_portable (
    drop-length_append (encode_varint32 ((length u + 8) % 2 ^ 32))
      (with_trailer u (pack_sequence_and_type s value_type_for_seek)))

user_key_of-lookup_key : (u : List ℕ) (s : ℕ) → user_key_of (lookup_key u s) ≡ u
unfolding user_key_of lookup_key
user_key_of-lookup_key u s =
    let enc = encode_varint32 ((length u + 8) % 2 ^ 32) in
    let p = pack_sequence_and_type s value_type_for_seek in
    let key_length : length (enc ++ with_trailer u p) - length enc - 8 ≡ length u =
      omega (arith, length-append enc (with_trailer u p), length-with_trailer u p) in
    rw (encode_fixed64_portable, key_length, drop-length_append enc (with_trailer u p))
      (take-length_append u (native_bytes 8 p))

memtable_key-lookup_key :
    (u : List ℕ) (s : ℕ)
    → memtable_key (lookup_key u s)
      ≡ put_length_prefixed_slice [] (append_internal_key [] (seek_key u s))
memtable_key-lookup_key u s = rw append_internal_key-with_trailer (
    unfold memtable_key lookup_key put_length_prefixed_slice put_varint32 in
    rw (encode_fixed64_portable, length-with_trailer))

-- The slices of a lookup key are the internal key for a seek at the sequence number, the user key,
-- and the internal key behind its length, which is how a memtable entry begins.
pub lookup_key_slices :
    (u : List ℕ) (s : ℕ)
    → (internal_key (lookup_key u s) ≡ append_internal_key [] (seek_key u s))
      × (user_key_of (lookup_key u s) ≡ u)
      × (memtable_key (lookup_key u s)
          ≡ put_length_prefixed_slice [] (append_internal_key [] (seek_key u s)))
lookup_key_slices u s = (
  internal_key-with_trailer u s ∙ sym (append_internal_key-with_trailer (seek_key u s)),
  user_key_of-lookup_key u s,
  memtable_key-lookup_key u s,
)
