-- ===== src/Cache/Sharded.antt =====
-- The cache of `kNumShards` shards. Its `Cache::Handle*` is the hash of the entry, which `Release`
-- reads from the entry, with the number of the entry's cell in the shard of that hash.
use mathlib.Core.Option
use squirrel.Prelude.{ℕ, ◌+◌, ◌-◌, ◌/◌, ◌%◌, ◌^◌, Option, List, replicate, get_or, set}
use squirrel.Hash.{hash}
use squirrel.Cache.{Handles}
use squirrel.Cache.Lru.{LruCache, new_lru_cache, insert, lookup, release, erase}

abbrev pub num_shard_bits : ℕ
num_shard_bits = 4

abbrev pub num_shards : ℕ
num_shards = 2 ^ num_shard_bits

-- `last_id` is a uint64_t.
pub record ShardedCache : Type 0 where
  pub shards : List LruCache
  pub last_id : ℕ

unfoldable pub shard : ℕ → ℕ
shard hash = hash / 2 ^ (32 - num_shard_bits)

-- `capacity + (kNumShards - 1)` is a size_t.
unfoldable pub new_sharded_cache : ℕ → Handles → ShardedCache
unfolding new_lru_cache
new_sharded_cache capacity handles =
    let per_shard = (capacity + (num_shards - 1)) % 2 ^ 64 / num_shards in
    record { shards = replicate num_shards (new_lru_cache per_shard handles); last_id = 0 }

unfoldable pub hash_slice : List ℕ → ℕ
unfolding hash
hash_slice s = hash s 0

module _ (base : LruCache) where
  -- `shard_[Shard(hash)]`, where `base` stands past the end of the array.
  abbrev pub shard_at : ℕ → ShardedCache → LruCache
  shard_at hash c = get_or c.shards (shard hash) base

  abbrev pub with_shard : ℕ → LruCache → ShardedCache → ShardedCache
  with_shard hash s c = record c { shards = set c.shards (shard hash) s }

  unfoldable pub sharded_insert : List ℕ → ℕ → ℕ → ShardedCache → ShardedCache × (ℕ × ℕ)
  unfolding hash_slice insert shard
  sharded_insert key value charge c =
      let h = hash_slice key in
      let (s, e) = insert key h value charge (shard_at h c) in (with_shard h s c, (h, e))

  unfoldable pub sharded_lookup : List ℕ → ShardedCache → ShardedCache × Option (ℕ × ℕ)
  unfolding hash_slice lookup shard
  sharded_lookup key c =
      let h = hash_slice key in
      let (s, e) = lookup key h (shard_at h c) in (with_shard h s c, Option.map (λ n. (h, n)) e)

  unfoldable pub sharded_release : ℕ × ℕ → ShardedCache → ShardedCache
  unfolding release shard
  sharded_release (h, e) c = with_shard h (release e (shard_at h c)) c

  unfoldable pub sharded_erase : List ℕ → ShardedCache → ShardedCache
  unfolding hash_slice erase shard
  sharded_erase key c = let h = hash_slice key in with_shard h (erase key h (shard_at h c)) c

  unfoldable pub value_of : ℕ × ℕ → ShardedCache → ℕ
  unfolding shard
  value_of (h, e) c = ((shard_at h c).handles e).value

unfoldable pub new_id : ShardedCache → ShardedCache × ℕ
new_id c = let id = (c.last_id + 1) % 2 ^ 64 in (record c { last_id = id }, id)
