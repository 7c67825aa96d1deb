-- ===== src/Table/FilterBlock.antt =====
-- table/filter_block.h and table/filter_block.cpp: the block of a table that holds its filters, one
-- for each 2 KB of data blocks.
pub mod Keys
pub mod Reader
pub mod RoundTrip
mod Runs
use squirrel.Prelude.{ℕ, zero, suc, ◌+◌, ◌-◌, ◌*◌, ◌/◌, ◌%◌, ◌^◌, Bool, true, false, ◌&&◌}
use squirrel.Prelude.{List, [], ◌∷◌, ◌++◌, length, take, drop, ltb, leb, ◌==◌, if◌then◌else◌}
use squirrel.Coding.{little_endian, put_fixed32, decode_fixed32, byte_at}
use squirrel.Bloom.{FilterPolicy}

abbrev pub filter_base_lg : ℕ
filter_base_lg = 11

abbrev pub filter_base : ℕ
filter_base = 2 ^ filter_base_lg

-- The policy is an argument of the operations that call it, and `tmp_keys_` is empty between them.
pub record FilterBlockBuilder : Type 0 where
  pub keys : List ℕ
  pub start : List ℕ
  pub result : List ℕ
  pub filter_offsets : List ℕ

unfoldable pub new_filter_block_builder : FilterBlockBuilder
new_filter_block_builder = record { keys = []; start = []; result = []; filter_offsets = [] }

unfoldable pub add_key : List ℕ → FilterBlockBuilder → FilterBlockBuilder
add_key key b = record b { start = b.start ++ (length b.keys ∷ []); keys = b.keys ++ key }

-- The loop that fills `tmp_keys_`: a key goes from its start to the next one.
unfoldable pub tmp_keys : List ℕ → List ℕ → List (List ℕ)
tmp_keys keys [] = []
tmp_keys keys (s ∷ []) = []
tmp_keys keys (s ∷ next ∷ start) = take (next - s) (drop s keys) ∷ tmp_keys keys (next ∷ start)

-- `filter_offsets_` holds numbers of 32 bits.
unfoldable pub filter_from : FilterPolicy → List ℕ → FilterBlockBuilder → FilterBlockBuilder
unfolding tmp_keys
filter_from policy [] b = record b {
  filter_offsets = b.filter_offsets ++ (length b.result % 2 ^ 32 ∷ []);
}
filter_from policy (s ∷ start) b = record {
  keys = [];
  start = [];
  result = policy.create_filter (tmp_keys b.keys ((s ∷ start) ++ (length b.keys ∷ []))) b.result;
  filter_offsets = b.filter_offsets ++ (length b.result % 2 ^ 32 ∷ []);
}

unfoldable pub generate_filter : FilterPolicy → FilterBlockBuilder → FilterBlockBuilder
unfolding filter_from
generate_filter policy b = filter_from policy b.start b

-- The loop of `StartBlock`, on fuel: a round adds an offset, so `filter_index` rounds are enough.
unfoldable pub start_loop : FilterPolicy → ℕ → ℕ → FilterBlockBuilder → FilterBlockBuilder
unfolding generate_filter
start_loop policy zero filter_index b = b
start_loop policy (suc fuel) filter_index b =
    let more = start_loop policy fuel filter_index (generate_filter policy b) in
    if ltb (length b.filter_offsets) filter_index then more else b

unfoldable pub start_block : FilterPolicy → ℕ → FilterBlockBuilder → FilterBlockBuilder
unfolding start_loop
start_block policy block_offset b =
    let filter_index = block_offset / filter_base in start_loop policy filter_index filter_index b

unfoldable pub put_offsets : List ℕ → List ℕ → List ℕ
put_offsets dst [] = dst
put_offsets dst (o ∷ offsets) = put_offsets (put_fixed32 dst o) offsets

unfoldable pub generate_last : FilterPolicy → List ℕ → FilterBlockBuilder → FilterBlockBuilder
unfolding generate_filter
generate_last policy [] b = b
generate_last policy (s ∷ start) b = generate_filter policy b

-- The block is the result of the builder that is returned.
unfoldable pub finish : FilterPolicy → FilterBlockBuilder → FilterBlockBuilder
unfolding generate_last put_offsets
finish policy b =
    let last = generate_last policy b.start b in
    let array_offset = length last.result % 2 ^ 32 in
    record last {
      result =
          put_fixed32 (put_offsets last.result last.filter_offsets) array_offset
          ++ (filter_base_lg ∷ []);
    }

-- `offset` is the offset in `data_` that `offset_` points to. Both pointers are null in a reader of
-- a block that is too short, which has no filters.
pub record FilterBlockReader : Type 0 where
  pub data_ : List ℕ
  pub offset : ℕ
  pub num : ℕ
  pub base_lg : ℕ

-- `base_lg_ = contents[n - 1]`, where char is signed.
unfoldable pub new_filter_block_reader : List ℕ → FilterBlockReader
new_filter_block_reader contents =
    let n = length contents in
    let last = byte_at contents (n - 1) in
    let base_lg = if ltb last 128 then last else last + 2 ^ 64 - 256 in
    let last_word = decode_fixed32 little_endian (drop (n - 5) contents) in
    if ltb n 5
    then record { data_ = []; offset = 0; num = 0; base_lg = 0 }
    else if ltb (n - 5) last_word
    then record { data_ = []; offset = 0; num = 0; base_lg = base_lg }
    else record {
      data_ = contents;
      offset = last_word;
      num = (n - 5 - last_word) / 4;
      base_lg = base_lg;
    }

-- A shift by 64 or more is undefined in the source, and 0 here.
unfoldable pub reader_key_may_match : FilterPolicy → ℕ → List ℕ → FilterBlockReader → Bool
reader_key_may_match policy block_offset key r =
    let index = block_offset / 2 ^ r.base_lg in
    let start = decode_fixed32 little_endian (drop (r.offset + index * 4) r.data_) in
    let limit = decode_fixed32 little_endian (drop (r.offset + index * 4 + 4) r.data_) in
    if ltb index r.num
    then if leb start limit && leb limit r.offset
      then policy.key_may_match key (take (limit - start) (drop start r.data_))
      else if start == limit
      then false
      else true
    else true
