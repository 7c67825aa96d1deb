-- ===== src/DbFormat/Runs.antt =====
-- Runs of internal keys and lookup keys.
use Prim.Native.Nat.{compare, Ordering}
use squirrel.Prelude.{ℕ, ◌≡◌, ◌≢◌, refl, arith, some, List, [], ◌∷◌, codes}
use squirrel.Coding.{put_length_prefixed_slice, put_fixed64, encode_fixed64, native_bytes}
use squirrel.Slice.{slice_compare, memcmp}
use squirrel.Comparator.{bytewise_comparator}
use squirrel.Comparator.Bytewise.{bytewise-IsComparator}
use squirrel.DbFormat.{
  ParsedInternalKey, append_internal_key, parse_internal_key, internal_compare,
  pack_sequence_and_type,
}
use squirrel.DbFormat.{internal_shortest_separator, internal_short_successor, extract_user_key}
use squirrel.DbFormat.{lookup_key, memtable_key, internal_key, user_key_of}
use squirrel.DbFormat.Packing.{parse-append_internal_key}
use squirrel.DbFormat.Order.{newest_first, internal_compare-append_internal_key}
use squirrel.DbFormat.Separators.{internal_shortest_separator_bounds, internal_short_successor_ge}
use squirrel.DbFormat.Lookup.{lookup_key_slices}

-- A newer and an older entry for a key, and an entry for a larger key.
abbrev newer : ParsedInternalKey
newer = record { user_key = codes "foo"; sequence = 100; value_type = 1 }

abbrev older : ParsedInternalKey
older = record { user_key = codes "foo"; sequence = 7; value_type = 0 }

abbrev other : ParsedInternalKey
other = record { user_key = codes "hello"; sequence = 7; value_type = 1 }

abbrev encoded : List ℕ
encoded = 0x66 ∷ 0x6f ∷ 0x6f ∷ 0x01 ∷ 0x64 ∷ 0 ∷ 0 ∷ 0 ∷ 0 ∷ 0 ∷ 0 ∷ []

encoding_of_newer : append_internal_key [] newer ≡ encoded
unfolding append_internal_key put_fixed64 encode_fixed64 pack_sequence_and_type native_bytes
encoding_of_newer = refl

parse-append_internal_key_example : parse_internal_key (append_internal_key [] newer) ≡ some newer
parse-append_internal_key_example = parse-append_internal_key newer (omega arith)

internal_compare-append_internal_key_example :
    internal_compare bytewise_comparator
      (append_internal_key [] newer)
      (append_internal_key [] older)
    ≡ newest_first (slice_compare (codes "foo") (codes "foo")) (compare 100 7) (compare 1 0)
internal_compare-append_internal_key_example =
    internal_compare-append_internal_key bytewise_comparator newer older (omega arith) (omega arith)

abbrev older_key : List ℕ
older_key = 0x66 ∷ 0x6f ∷ 0x6f ∷ 0x00 ∷ 0x07 ∷ 0 ∷ 0 ∷ 0 ∷ 0 ∷ 0 ∷ 0 ∷ []

abbrev other_key : List ℕ
other_key = 0x68 ∷ 0x65 ∷ 0x6c ∷ 0x6c ∷ 0x6f ∷ 0x01 ∷ 0x07 ∷ 0 ∷ 0 ∷ 0 ∷ 0 ∷ 0 ∷ 0 ∷ []

foo_before_hello :
    slice_compare (extract_user_key older_key) (extract_user_key other_key) ≡ Ordering.lt
unfolding extract_user_key slice_compare memcmp
foo_before_hello = refl

internal_shortest_separator_bounds_example :
    (internal_compare bytewise_comparator older_key
        (internal_shortest_separator bytewise_comparator older_key other_key)
      ≢ Ordering.gt)
    × (internal_compare bytewise_comparator
          (internal_shortest_separator bytewise_comparator older_key other_key)
          other_key
        ≡ Ordering.lt)
internal_shortest_separator_bounds_example =
    internal_shortest_separator_bounds bytewise_comparator bytewise-IsComparator older_key other_key
      foo_before_hello

internal_short_successor_ge_example :
    internal_compare bytewise_comparator other_key
      (internal_short_successor bytewise_comparator other_key)
    ≢ Ordering.gt
internal_short_successor_ge_example =
    internal_short_successor_ge bytewise_comparator bytewise-IsComparator other_key

lookup_key_slices_example :
    (internal_key (lookup_key (codes "foo") 100) ≡ append_internal_key [] newer)
    × (user_key_of (lookup_key (codes "foo") 100) ≡ codes "foo")
    × (memtable_key (lookup_key (codes "foo") 100)
        ≡ put_length_prefixed_slice [] (append_internal_key [] newer))
lookup_key_slices_example = lookup_key_slices (codes "foo") 100
