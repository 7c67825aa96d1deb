-- ===== src/Table/Block/Iter.antt =====
-- table/block.h and table/block.cpp: a block, and the iterator over its entries.
use squirrel.Prelude.{ℕ, zero, suc, ◌+◌, ◌-◌, ◌*◌, ◌/◌, ◌%◌, ◌^◌, Bool, true, false, ◌&&◌}
use squirrel.Prelude.{
  Option, none, some, List, [], ◌++◌, ltb, leb, ◌==◌, if◌then◌else◌, length, take, drop, codes,
}
use squirrel.Coding.{little_endian, decode_fixed32}
use squirrel.Slice.{is_lt}
use squirrel.Status.{Status, ok, corruption, make_status}
use squirrel.Comparator.{Comparator}
use squirrel.Table.Block.{Entry, decode_entry}

-- `owned_` shows nowhere but in the destructor; `restart_offset` is 0 where it is not set.
pub record Block : Type 0 where
  pub data_ : List ℕ
  pub size : ℕ
  pub restart_offset : ℕ

abbrev pub num_restarts_of : List ℕ → ℕ
num_restarts_of data_ = decode_fixed32 little_endian (drop (length data_ - 4) data_)

unfoldable pub new_block : List ℕ → Block
new_block data_ =
    let size = length data_ in
    let num_restarts = num_restarts_of data_ in
    let max_restarts_allowed = (size - 4) / 4 in
    if ltb size 4
    then record { data_ = data_; size = 0; restart_offset = 0 }
    else if ltb max_restarts_allowed num_restarts
    then record { data_ = data_; size = 0; restart_offset = 0 }
    else record {
      data_ = data_;
      size = size;
      restart_offset = (size - (1 + num_restarts) % 2 ^ 32 * 4) % 2 ^ 32;
    }

-- `value_at` is where `value_.data()` points to in the block; after an error it is not read.
pub record Iter : Type 0 where
  pub current : ℕ
  pub restart_index : ℕ
  pub key : List ℕ
  pub value_at : ℕ
  pub value : List ℕ
  pub status : Status

-- `restarts` is the offset of the restart array.
module _ (data_ : List ℕ) (restarts num_restarts : ℕ) where
  abbrev pub new_iter : Iter
  new_iter = record {
    current = restarts;
    restart_index = num_restarts;
    key = [];
    value_at = 0;
    value = [];
    status = ok;
  }

  unfoldable pub valid : Iter → Bool
  valid it = ltb it.current restarts

  unfoldable pub next_entry_offset : Iter → ℕ
  next_entry_offset it = (it.value_at + length it.value) % 2 ^ 32

  unfoldable pub get_restart_point : ℕ → ℕ
  get_restart_point index = decode_fixed32 little_endian (drop (restarts + index * 4) data_)

  unfoldable pub seek_to_restart_point : ℕ → Iter → Iter
  seek_to_restart_point index it = record it {
    key = [];
    restart_index = index;
    value_at = get_restart_point index;
    value = [];
  }

  unfoldable pub corruption_error : Iter → Iter
  corruption_error it = record it {
    current = restarts;
    restart_index = num_restarts;
    status = make_status corruption (codes "bad entry in block") [];
    key = [];
    value = [];
  }

  -- The loop that moves `restart_index_` up; its fuel is the number of restart points.
  unfoldable pub advance_restart : ℕ → ℕ → ℕ → ℕ
  advance_restart zero current index = index
  advance_restart (suc fuel) current index =
      let further = advance_restart fuel current (index + 1) in
      if ltb (index + 1) num_restarts && ltb (get_restart_point (index + 1)) current
      then further
      else index

  unfoldable pub take_entry : Option Entry → Iter → Bool × Iter
  take_entry none it = (false, corruption_error it)
  take_entry (some e) it = if ltb (length it.key) e.shared then (false, corruption_error it) else (
    true,
    record it {
      key = take e.shared it.key ++ take e.non_shared e.rest;
      value_at = restarts - length e.rest + e.non_shared;
      value = take e.value_length (drop e.non_shared e.rest);
      restart_index = advance_restart num_restarts it.current it.restart_index;
    },
  )

  unfoldable pub parse_next_key : Iter → Bool × Iter
  parse_next_key it =
      let current = next_entry_offset it in
      let p = take (restarts - current) (drop current data_) in
      if leb restarts current
      then (false, record it { current = restarts; restart_index = num_restarts })
      else take_entry (decode_entry p) (record it { current = current })

  abbrev pub next : Iter → Iter
  next it = (parse_next_key it).1

  abbrev pub seek_to_first : Iter → Iter
  seek_to_first it = (parse_next_key (seek_to_restart_point 0 it)).1

  -- The scan of `Prev` down to a restart point before `original`; `none` is "no more entries".
  unfoldable pub scan_back : ℕ → ℕ → Option ℕ
  scan_back original zero = if leb original (get_restart_point 0) then none else some 0
  scan_back original (suc index) =
      let below = scan_back original index in
      if leb original (get_restart_point (suc index)) then below else some (suc index)

  -- `do { } while (ParseNextKey() && NextEntryOffset() < stop)`. `none` is no result of the
  -- program: the fuel ran out.
  unfoldable pub parse_until : ℕ → ℕ → Iter → Option Iter
  parse_until zero stop it = none
  parse_until (suc fuel) stop it =
      let (parsed, it1) = parse_next_key it in
      let again = parse_until fuel stop it1 in
      if parsed && ltb (next_entry_offset it1) stop then again else some it1

  unfoldable pub prev_from : ℕ → ℕ → Option ℕ → Iter → Option Iter
  prev_from fuel original none it =
      some (record it { current = restarts; restart_index = num_restarts })
  prev_from fuel original (some index) it =
      parse_until fuel original (seek_to_restart_point index it)

  unfoldable pub prev : ℕ → Iter → Option Iter
  prev fuel it = prev_from fuel it.current (scan_back it.current it.restart_index) it

  unfoldable pub seek_to_last : ℕ → Iter → Option Iter
  seek_to_last fuel it = parse_until fuel restarts (seek_to_restart_point (num_restarts - 1) it)

  module _ (cmp : Comparator) (target : List ℕ) where
    -- A round of the binary search: whether the key at `mid` is smaller, or an error.
    unfoldable pub key_at_smaller : Option Entry → Option Bool
    key_at_smaller none = none
    key_at_smaller (some e) =
        if e.shared == 0 then some (is_lt (cmp.compare (take e.non_shared e.rest) target)) else none

    -- The binary search; `none` is the corruption error. The fuel bounds the number of rounds.
    unfoldable pub search : ℕ → ℕ → ℕ → Option ℕ
    search zero left right = some left
    search (suc fuel) left right =
        let mid = (left + right + 1) % 2 ^ 32 / 2 in
        let region_offset = get_restart_point mid in
        let p = take (restarts - region_offset) (drop region_offset data_) in
        let up = search fuel mid right in
        let down = search fuel left (mid - 1) in
        if ltb left right
        then elim (key_at_smaller (decode_entry p)) [
          | none ↦ none
          | some smaller ↦ if smaller then up else down
        ]
        else some left

    -- The linear search. `none` is no result of the program: the fuel ran out.
    unfoldable pub search_entries : ℕ → Iter → Option Iter
    search_entries zero it = none
    search_entries (suc fuel) it =
        let (parsed, it1) = parse_next_key it in
        let again = search_entries fuel it1 in
        if parsed && is_lt (cmp.compare it1.key target) then again else some it1

    unfoldable pub seek_from : ℕ → Option ℕ → Iter → Option Iter
    seek_from fuel none it = some (corruption_error it)
    seek_from fuel (some left) it = search_entries fuel (seek_to_restart_point left it)

    unfoldable pub seek : ℕ → Iter → Option Iter
    seek fuel it = seek_from fuel (search num_restarts 0 (num_restarts - 1)) it
