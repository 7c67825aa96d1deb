-- ===== src/Cache/Lru.antt =====
-- The LRU cache of one shard. `free` and the deleter are the list of the handles they were called
-- on, the latest first.
use squirrel.Prelude.{ℕ, ◌+◌, ◌-◌, ◌%◌, ◌^◌, Option, none, some}
use squirrel.Prelude.{List, [], ◌∷◌, ◌++◌, ltb, ◌==◌, if◌then◌else◌}
use squirrel.Cache.{
  Handle, Handles, HandleTable, table_lookup, table_insert, table_remove, new_handle_table,
}

-- `handles` and `fresh` are the cells and the first that has not been allocated.
pub record LruCache : Type 0 where
  pub capacity : ℕ
  pub usage : ℕ
  pub lru : List ℕ
  pub table : HandleTable
  pub handles : Handles
  pub fresh : ℕ
  pub deleted : List ℕ

unfoldable pub new_lru_cache : ℕ → Handles → LruCache
new_lru_cache capacity handles = record {
  capacity = capacity;
  usage = 0;
  lru = [];
  table = new_handle_table handles;
  handles = handles;
  fresh = 0;
  deleted = [];
}

abbrev pub with_refs : Handles → ℕ → ℕ → Handles
with_refs handles e refs g = if g == e then record (handles e) { refs = refs } else handles g

-- `usage_` is a size_t, and `refs` a uint32_t that is more than 0 by the assertion.
unfoldable pub unref : ℕ → LruCache → LruCache
unref e s =
    let left = (s.handles e).refs - 1 in
    let s' : LruCache = record s { handles = with_refs s.handles e left } in
    if left == 0
    then record s' {
      usage = (s.usage + (2 ^ 64 - (s.handles e).charge % 2 ^ 64)) % 2 ^ 64;
      deleted = e ∷ s.deleted;
    }
    else s'

-- `LRU_Remove`, for an entry that is in the list, and `LRU_Append`.
unfoldable pub lru_remove : ℕ → List ℕ → List ℕ
lru_remove e [] = []
lru_remove e (g ∷ lru) = let rest = lru_remove e lru in if g == e then lru else g ∷ rest

abbrev pub lru_append : ℕ → List ℕ → List ℕ
lru_append e lru = lru ++ (e ∷ [])

unfoldable pub touched : Option ℕ → LruCache → LruCache
unfolding lru_remove
touched none s = s
touched (some e) s = record s {
  handles = with_refs s.handles e (((s.handles e).refs + 1) % 2 ^ 32);
  lru = lru_append e (lru_remove e s.lru);
}

unfoldable pub lookup : List ℕ → ℕ → LruCache → LruCache × Option ℕ
unfolding touched
lookup key hash s = let e = table_lookup s.handles key hash s.table in (touched e s, e)

-- `while (usage_ > capacity_ && lru_.next != &lru_)` with its body, over the entries of the list.
unfoldable pub evict : List ℕ → LruCache → LruCache
unfolding unref
evict [] s = s
evict (old ∷ rest) s =
    let handle = s.handles old in
    let smaller : LruCache = record s {
      lru = rest;
      table = (table_remove s.handles handle.key handle.hash s.table).0;
    } in
    let evicted = evict rest (unref old smaller) in if ltb s.capacity s.usage then evicted else s

-- The entry that was in the table is taken out of the list.
unfoldable pub dropped : Option ℕ → LruCache → LruCache
unfolding lru_remove unref
dropped none s = s
dropped (some old) s = unref old (record s { lru = lru_remove old s.lru })

unfoldable pub allocated : List ℕ → ℕ → ℕ → ℕ → LruCache → LruCache
allocated key hash value charge s =
    let handle : Handle = record {
      value = value;
      charge = charge;
      key = key;
      hash = hash;
      refs = 2;
    } in
    record s {
      handles = λ g. if g == s.fresh then handle else s.handles g;
      fresh = s.fresh + 1;
      lru = lru_append s.fresh s.lru;
      usage = (s.usage + charge) % 2 ^ 64;
    }

unfoldable pub insert : List ℕ → ℕ → ℕ → ℕ → LruCache → LruCache × ℕ
unfolding evict dropped allocated table_insert
insert key hash value charge s =
    let s1 = allocated key hash value charge s in
    let (table, old) = table_insert s1.handles s.fresh s1.table in
    let s2 = dropped old (record s1 { table = table }) in (evict s2.lru s2, s.fresh)

unfoldable pub release : ℕ → LruCache → LruCache
unfolding unref
release e s = unref e s

unfoldable pub erase : List ℕ → ℕ → LruCache → LruCache
unfolding dropped table_remove
erase key hash s =
    let (table, e) = table_remove s.handles key hash s.table in
    dropped e (record s { table = table })

-- The loop of the destructor, over the entries of the list.
unfoldable pub destroy : List ℕ → LruCache → LruCache
unfolding unref
destroy [] s = s
destroy (e ∷ rest) s = destroy rest (unref e s)
