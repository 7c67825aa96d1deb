-- ===== src/Table/BlockBuilder.antt =====
-- table/block_builder.h and table/block_builder.cpp. The options are the restart interval; the
-- comparator stands in an assert alone.
use squirrel.Prelude.{ℕ, suc, ◌+◌, ◌-◌, ◌*◌, ◌%◌, ◌^◌, Bool, true, false}
use squirrel.Prelude.{List, [], ◌∷◌, ◌++◌, length, take, drop, ltb, ◌==◌, if◌then◌else◌}
use squirrel.Coding.{put_fixed32, put_varint32}

pub record BlockBuilder : Type 0 where
  pub buffer : List ℕ
  pub restarts : List ℕ
  pub counter : ℕ
  pub finished : Bool
  pub last_key : List ℕ

-- The constructor, and `Reset`: the first restart point is at offset 0.
abbrev pub new_block_builder : BlockBuilder
new_block_builder = record {
  buffer = [];
  restarts = 0 ∷ [];
  counter = 0;
  finished = false;
  last_key = [];
}

abbrev pub reset : BlockBuilder → BlockBuilder
reset b = new_block_builder

unfoldable pub current_size_estimate : BlockBuilder → ℕ
current_size_estimate b = length b.buffer + length b.restarts * 4 + 4

-- The loop over the restart array.
unfoldable pub put_restarts : List ℕ → List ℕ → List ℕ
put_restarts dst [] = dst
put_restarts dst (r ∷ restarts) = put_restarts (put_fixed32 dst r) restarts

-- The block is the buffer of the builder that is returned.
unfoldable pub finish : BlockBuilder → BlockBuilder
finish b = record b {
  buffer = put_fixed32 (put_restarts b.buffer b.restarts) (length b.restarts % 2 ^ 32);
  finished = true;
}

-- The `while` loop: how many bytes the last key and the key have in common.
unfoldable pub shared_prefix : List ℕ → List ℕ → ℕ
shared_prefix (x ∷ last) (y ∷ key) =
    let rest = shared_prefix last key in if x == y then suc rest else 0
shared_prefix last key = 0

-- `restarts_` is a vector of uint32_t, and `PutVarint32` takes uint32_t. The asserts, on the order of
-- the keys, the counter and a finished block, are left out, as in a build without them.
unfoldable pub add : ℕ → List ℕ → List ℕ → BlockBuilder → BlockBuilder
add block_restart_interval key value b =
    let compress = ltb b.counter block_restart_interval in
    let shared = if compress then shared_prefix b.last_key key else 0 in
    let non_shared = length key - shared in
    let sizes =
      put_varint32 (put_varint32 (put_varint32 b.buffer (shared % 2 ^ 32)) (non_shared % 2 ^ 32))
        (length value % 2 ^ 32) in
    record b {
      buffer = sizes ++ take non_shared (drop shared key) ++ value;
      restarts = if compress then b.restarts else b.restarts ++ (length b.buffer % 2 ^ 32 ∷ []);
      counter = if compress then b.counter + 1 else 1;
      last_key = take shared b.last_key ++ take non_shared (drop shared key);
    }
