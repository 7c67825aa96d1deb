-- ===== src/Memtable/Compare.antt =====
-- The comparator of the memtable's skip list, and the entry that `Get` stands at.
use Prim.Native.Nat.{compare}
use squirrel.Prelude.{
  ℕ, ◌+◌, ◌-◌, ◌%◌, ◌^◌, ◌≡◌, refl, sym, ap, ◌∙◌, arith, append-nil, append_assoc,
}
use squirrel.Prelude.{
  true, false, bit_and, ◌==◌, if◌then◌else◌, List, [], ◌++◌, length, take, drop, take-length_append,
  drop-length_append,
}
use squirrel.Prelude.Masks.{and_mask}
use squirrel.Coding.{
  IsU32, little_endian, encode_varint32, put_varint32, put_length_prefixed_slice, decode_fixed64,
  native_bytes,
}
use squirrel.Coding.Fixed.{decode_native64}
use squirrel.Slice.{is_eq}
use squirrel.Status.{Status, make_status, not_found}
use squirrel.Comparator.{Comparator, IsComparator}
use squirrel.DbFormat.{
  lookup_key, memtable_key, type_value, append_internal_key, value_type_for_seek,
}
use squirrel.DbFormat.Order.{
  newest_first, internal_compare-append_internal_key, internal_compare-flip, internal_le_trans,
}
use squirrel.DbFormat.Packing.{
  IsPacked, pack_sum, with_trailer, length-with_trailer, append_internal_key-with_trailer,
}
use squirrel.DbFormat.Lookup.{lookup_key_slices, seek_key}
use squirrel.SkipList.Order.{IsOrder}
use squirrel.Memtable.{GetResult, slice_at, key_compare, read_entry}
use squirrel.Memtable.Entry.{
  Entry, encode, IsEntry, tag_of, slice_at-encode, varint_at-encode, slice_at-append,
}

-- The order of the table is an order, on any bytes.
pub key_compare-IsOrder : (user : Comparator) → IsComparator user → IsOrder (key_compare user)
unfolding key_compare
key_compare-IsOrder user laws = record {
  lt_flip = λ a b h. ground (arith, internal_compare-flip user laws (slice_at a) (slice_at b));
  gt_flip = λ a b h. ground (arith, internal_compare-flip user laws (slice_at a) (slice_at b));
  le_trans = λ a b c h g. internal_le_trans user laws (slice_at a) (slice_at b) (slice_at c) h g;
}

pub key_compare-encode :
    (user : Comparator) (e f : Entry)
    → IsEntry e
    → IsEntry f
    → key_compare user (encode e) (encode f)
      ≡ newest_first
          (user.compare e.key f.key)
          (compare e.sequence f.sequence)
          (compare e.value_type f.value_type)
unfolding key_compare
key_compare-encode user e f he hf =
    rw (slice_at-encode e he, slice_at-encode f hf)
      (internal_compare-append_internal_key user _ _ he.packed hf.packed)

slice_at-lookup_key :
    (u : List ℕ) (s : ℕ)
    → IsU32 (length u + 8)
    → slice_at (memtable_key (lookup_key u s)) ≡ append_internal_key [] (seek_key u s)
slice_at-lookup_key u s short =
    let key = append_internal_key [] (seek_key u s) in
    let size : length key ≡ length u + 8 =
      ap length (append_internal_key-with_trailer (seek_key u s)) ∙ length-with_trailer u _ in
    let fits : length key % 2 ^ 32 ≡ length key = omega (arith, size) in
    let bytes : memtable_key (lookup_key u s) ≡ encode_varint32 (length key) ++ (key ++ []) =
      (lookup_key_slices u s).2
      ∙ unfold put_length_prefixed_slice put_varint32 in rw (fits, append-nil) refl in
    rw bytes (slice_at-append key [] (omega (arith, size)))

pub key_compare-lookup_key :
    (user : Comparator) (e : Entry) (u : List ℕ) (s : ℕ)
    → IsEntry e
    → IsPacked s value_type_for_seek
    → IsU32 (length u + 8)
    → key_compare user (encode e) (memtable_key (lookup_key u s))
      ≡ newest_first
          (user.compare e.key u)
          (compare e.sequence s)
          (compare e.value_type value_type_for_seek)
unfolding key_compare
key_compare-lookup_key user e u s he hs short =
    rw (slice_at-encode e he, slice_at-lookup_key u s short)
      (internal_compare-append_internal_key user _ _ he.packed hs)

-- What `Get` returns at an entry of the user key that it looks for.
unfoldable pub outcome : Entry → List ℕ → Status → GetResult
outcome e value status =
    if e.value_type == type_value
    then record { found = true; value = e.value; status = status }
    else record { found = true; value = value; status = make_status not_found [] [] }

pub read_entry-encode :
    (user : Comparator) (e : Entry) (target value : List ℕ) (status : Status)
    → IsEntry e
    → read_entry user (encode e) target value status ≡ (
        if is_eq (user.compare e.key target)
        then outcome e value status
        else record { found = false; value = value; status = status })
unfolding read_entry outcome
read_entry-encode user e target value status he =
    let w = with_trailer e.key (tag_of e) in
    let behind = encode_varint32 (length e.value) ++ e.value in
    let size : length e.key + 8 - 8 ≡ length e.key = omega arith in
    let front : take (length e.key) (w ++ behind) ≡ e.key =
      rw (append_assoc e.key (native_bytes 8 (tag_of e)) behind)
        (take-length_append e.key (native_bytes 8 (tag_of e) ++ behind)) in
    let trail : drop (length e.key) (w ++ behind) ≡ native_bytes 8 (tag_of e) ++ behind =
      rw (append_assoc e.key (native_bytes 8 (tag_of e)) behind)
        (drop-length_append e.key (native_bytes 8 (tag_of e) ++ behind)) in
    let value_at : drop (length e.key + 8) (w ++ behind) ≡ behind =
      rw (← length-with_trailer e.key (tag_of e)) (drop-length_append w behind) in
    let tag : decode_fixed64 little_endian (native_bytes 8 (tag_of e) ++ behind) ≡ tag_of e =
      decode_native64 little_endian (tag_of e) behind
        (omega (arith, pack_sum e.sequence e.value_type he.packed, he.packed)) in
    let low : bit_and (tag_of e) 0xff ≡ e.value_type =
      omega (arith, and_mask 8 (tag_of e), pack_sum e.sequence e.value_type he.packed, he.packed) in
    let read : slice_at behind ≡ e.value =
      ap (λ t. slice_at (encode_varint32 (length e.value) ++ t)) (sym (append-nil e.value))
      ∙ slice_at-append e.value [] he.short_value in
    rw (varint_at-encode e he, size, front, trail, tag, value_at, low, read)
      (ground (arith, he.packed))
