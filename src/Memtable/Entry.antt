-- ===== src/Memtable/Entry.antt =====
-- What is read back from an encoded entry.
use squirrel.Prelude.{ℕ, ◌+◌, ◌-◌, ◌%◌, ◌^◌, ◌≤◌, ◌≡◌, refl, sym, ap, ◌∙◌, arith, append_assoc}
use squirrel.Prelude.{
  some, List, [], ◌++◌, length, take, length-append, take-append, take-length_append,
  drop-length_append,
}
use squirrel.Coding.{
  IsU32, encode_varint32, put_varint32, get_varint32, varint_length, native_bytes,
}
use squirrel.Coding.Decode.{get-put_varint32}
use squirrel.Coding.Fixed.{encode_fixed64_portable}
use squirrel.Coding.Varint.{
  length-base128, encode_varint32-base128, encode_varint32-eq-encode_varint64,
  length-encode_varint64,
}
use squirrel.DbFormat.{ValueType, pack_sequence_and_type, ParsedInternalKey, append_internal_key}
use squirrel.DbFormat.Packing.{
  IsPacked, with_trailer, length-with_trailer, append_internal_key-with_trailer,
}
use squirrel.Memtable.{varint_at, advance, slice_at, encode_entry, encoded_len}

length-encode_varint32 : (v : ℕ) → IsU32 v → length (encode_varint32 v) ≤ 5
length-encode_varint32 v h = rw (encode_varint32-base128 v h) (omega (arith, length-base128 4 v))

-- Behind an encoded varint stands what was written behind it.
pub varint_at-append :
    (v : ℕ) (rest : List ℕ) → IsU32 v → varint_at (encode_varint32 v ++ rest) ≡ (v, rest)
unfolding varint_at
varint_at-append v rest h =
    let enc = encode_varint32 v in
    let small = length-encode_varint32 v h in
    let cut : take 5 (enc ++ rest) ≡ enc ++ take (5 - length enc) rest =
      take-append 5 enc rest small in
    let read : get_varint32 (enc ++ take (5 - length enc) rest)
        ≡ some (v, take (5 - length enc) rest) =
      unfold put_varint32 in get-put_varint32 v (take (5 - length enc) rest) h in
    let moved : length (enc ++ take (5 - length enc) rest) - length (take (5 - length enc) rest)
        ≡ length enc =
      omega (arith, length-append enc (take (5 - length enc) rest)) in
    rw (cut, read)
      (unfold advance in rw (cut, moved) (ap (λ p. (v, p)) (drop-length_append enc rest)))

pub slice_at-append :
    (key rest : List ℕ)
    → IsU32 (length key)
    → slice_at (encode_varint32 (length key) ++ (key ++ rest)) ≡ key
unfolding slice_at
slice_at-append key rest h =
    rw (varint_at-append (length key) (key ++ rest) h) (take-length_append key rest)

-- What `Add` is given.
pub record Entry : Type 0 where
  pub key : List ℕ
  pub sequence : ℕ
  pub value_type : ValueType
  pub value : List ℕ

abbrev pub encode : Entry → List ℕ
encode e = encode_entry e.sequence e.value_type e.key e.value

-- Numbers and types that the asserts of the packing allow, and lengths that fit a varint32.
pub record IsEntry (e : Entry) : Type 0 where
  pub packed : IsPacked e.sequence e.value_type
  pub short_key : IsU32 (length e.key + 8)
  pub short_value : IsU32 (length e.value)

abbrev pub parsed : Entry → ParsedInternalKey
parsed e = record { user_key = e.key; sequence = e.sequence; value_type = e.value_type }

abbrev pub tag_of : Entry → ℕ
tag_of e = pack_sequence_and_type e.sequence e.value_type

module _ (e : Entry) (valid : IsEntry e) where
  encode-with_trailer :
      encode e
      ≡ encode_varint32 (length (with_trailer e.key (tag_of e)))
        ++ (with_trailer e.key (tag_of e) ++ (encode_varint32 (length e.value) ++ e.value))
  unfolding encode_entry
  encode-with_trailer =
      let key_size : (length e.key + 8) % 2 ^ 32 ≡ length e.key + 8 =
        omega (arith, valid.short_key) in
      let value_size : length e.value % 2 ^ 32 ≡ length e.value =
        omega (arith, valid.short_value) in
      rw (key_size, value_size, encode_fixed64_portable, length-with_trailer)
        (ap (λ t. encode_varint32 (length e.key + 8) ++ t)
          (sym (
            append_assoc e.key (native_bytes 8 (tag_of e))
              (encode_varint32 (length e.value) ++ e.value))))

  short : IsU32 (length (with_trailer e.key (tag_of e)))
  short = rw (length-with_trailer) (valid.short_key)

  -- The internal key of an entry, as the comparator of the table reads it.
  pub slice_at-encode : slice_at (encode e) ≡ append_internal_key [] (parsed e)
  slice_at-encode = rw encode-with_trailer (
      slice_at-append (with_trailer e.key (tag_of e)) (encode_varint32 (length e.value) ++ e.value)
        short
      ∙ sym (append_internal_key-with_trailer (parsed e)))

  pub varint_at-encode : varint_at (encode e) ≡ (
    length e.key + 8,
    with_trailer e.key (tag_of e) ++ (encode_varint32 (length e.value) ++ e.value),
  )
  varint_at-encode = rw encode-with_trailer (
      varint_at-append (length (with_trailer e.key (tag_of e)))
        (with_trailer e.key (tag_of e) ++ (encode_varint32 (length e.value) ++ e.value)) short
      ∙ rw length-with_trailer refl)

  -- An entry has the size that `Add` asked the arena for.
  pub length-encode : length (encode e) ≡ encoded_len e.key e.value
  unfolding encoded_len
  length-encode =
      let k = length e.key + 8 in
      let v = length e.value in
      let wk = encode_varint32-eq-encode_varint64 k valid.short_key in
      let wv = encode_varint32-eq-encode_varint64 v valid.short_value in
      let lk : length (encode_varint32 k) ≡ varint_length k =
        rw wk ((length-encode_varint64 k (omega (arith, valid.short_key))).0) in
      let lv : length (encode_varint32 v) ≡ varint_length v =
        rw wv ((length-encode_varint64 v (omega (arith, valid.short_value))).0) in
      rw (encode-with_trailer, length-with_trailer)
        (omega (
          arith,
          lk,
          lv,
          length-append (encode_varint32 k)
              (with_trailer e.key (tag_of e) ++ (encode_varint32 v ++ e.value)),
          length-append (with_trailer e.key (tag_of e)) (encode_varint32 v ++ e.value),
          length-with_trailer e.key (tag_of e),
          length-append (encode_varint32 v) e.value,
        ))
