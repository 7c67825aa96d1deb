-- ===== src/Table/Runs.antt =====
-- Runs of the table format and of block entries.
use squirrel.Prelude.{
  ℕ, ◌≤◌, ◌<◌, ◌^◌, ◌≡◌, false, refl, arith, some, List, [], ◌∷◌, ◌++◌, length, codes,
}
use squirrel.Status.{ok}
use squirrel.Table.Format.{BlockHandle, Footer, encode_footer, decode_footer, encoded_length}
use squirrel.Table.Format.RoundTrip.{decode-encode_footer}
use squirrel.Table.BlockBuilder.{
  BlockBuilder, new_block_builder, add, shared_prefix, finish, put_restarts,
}
use squirrel.Table.Block.{Entry, decode_entry}
use squirrel.Table.Block.Iter.{new_block, num_restarts_of, new_iter, seek_to_first}
use squirrel.Table.Block.Scan.{Pair, pairs_from}
use squirrel.Table.Block.RoundTrip.{add_pairs, block_round_trip}
use squirrel.Table.Block.Entries.{Restores, add-decode_entry}
use squirrel.Coding.{put_varint32, encode_varint32, put_fixed32, encode_fixed32, native_bytes}

abbrev handle : BlockHandle
handle = record { offset = 300; size = 5 }

abbrev footer : Footer
footer = record { metaindex_handle = handle; index_handle = record { offset = 2 ^ 63; size = 1 } }

decode-encode_footer_example :
    (decode_footer footer (encode_footer footer [] ++ (7 ∷ [])) ≡ (ok, footer, 7 ∷ []))
    × (length (encode_footer footer []) ≡ encoded_length)
decode-encode_footer_example = decode-encode_footer footer footer (7 ∷ []) (omega arith)

-- A builder that holds one entry, and a second key that shares two bytes with the first.
abbrev one_entry : BlockBuilder
one_entry = record {
  buffer = 0 ∷ 3 ∷ 1 ∷ 0x61 ∷ 0x62 ∷ 0x63 ∷ 0x31 ∷ [];
  restarts = 0 ∷ [];
  counter = 1;
  finished = false;
  last_key = codes "abc";
}

first_entry : add 16 (codes "abc") (codes "1") new_block_builder ≡ one_entry
unfolding add put_varint32 encode_varint32 shared_prefix
first_entry = refl

add-decode_entry_example :
    (bytes : List ℕ) × (e : Entry) × ((add 16 (codes "abd") (codes "22") one_entry).buffer
      ≡ one_entry.buffer ++ bytes)
    × ((add 16 (codes "abd") (codes "22") one_entry).last_key ≡ codes "abd")
    × (0 < length bytes)
    × (decode_entry (bytes ++ (0 ∷ [])) ≡ some e)
    × (length e.rest ≤ length (bytes ++ (0 ∷ [])))
    × Restores (codes "abc") (codes "abd") (codes "22") (0 ∷ []) e
add-decode_entry_example =
    add-decode_entry 16 (codes "abd") (codes "22") one_entry (0 ∷ []) (omega arith)

-- Three pairs with a restart point at every second entry.
abbrev pairs : List Pair
pairs = (codes "abc", codes "1") ∷ (codes "abd", codes "22") ∷ (codes "b", []) ∷ []

abbrev contents : List ℕ
contents = (finish (add_pairs 2 pairs new_block_builder)).buffer

short_block : length contents < 2 ^ 31
unfolding finish add_pairs put_restarts put_fixed32 encode_fixed32 native_bytes add put_varint32
    encode_varint32 shared_prefix
short_block = omega arith

block_round_trip_example :
    pairs_from contents (new_block contents).restart_offset (num_restarts_of contents) 4 (
      seek_to_first contents
        (new_block contents).restart_offset
        (num_restarts_of contents)
        (new_iter contents (new_block contents).restart_offset (num_restarts_of contents)))
    ≡ pairs
block_round_trip_example = block_round_trip 2 pairs (omega arith) short_block
