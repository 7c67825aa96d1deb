-- ===== src/Cache/Runs.antt =====
-- Tests of the cache, and its theorems at concrete entries.
use squirrel.Prelude.{
  ℕ, ◌*◌, ◌%◌, ◌^◌, ◌<◌, ◌≡◌, ◌≤◌, ◌⊎◌, refl, arith, ◌&&◌, Option, none, some, List, [], ◌∷◌, ◌==◌,
  if◌then◌else◌, codes,
}
use squirrel.Slice.{slice_eq}
use squirrel.Cache.{
  Handles, HandleTable, matches, table_lookup, table_insert, table_remove, new_handle_table,
}
use squirrel.Cache.Table.{IsTable, new_handle_table-IsTable}
use squirrel.Cache.Insert.{insert-lookup}
use squirrel.Cache.Remove.{remove-lookup}
use squirrel.Cache.Lru.{LruCache, new_lru_cache, insert, lookup, release, erase}
use squirrel.Cache.Usage.{IsCache, new_lru_cache-IsCache, insert-IsCache, operations-IsCache}

-- Cell `n` has the key of one byte `n % 3`, so that cells 3 apart have the same hash and key.
abbrev cells : Handles
cells n = record { value = n; charge = 1; key = n % 3 ∷ []; hash = 4 * (n % 3); refs = 2 }

abbrev fill : List ℕ → HandleTable → HandleTable
unfolding table_insert
fill [] t = t
fill (h ∷ hs) t = fill hs (table_insert cells h t).0

found_after : ℕ → List ℕ → Option ℕ
unfolding table_lookup new_handle_table
found_after n hs = table_lookup cells (n ∷ []) (4 * n) (fill hs (new_handle_table cells))

finds_the_last : found_after 1 (1 ∷ 2 ∷ 4 ∷ []) ≡ some 4
unfolding found_after fill slice_eq
finds_the_last = refl

-- The table has a second entry of the hash and key when the theorems are applied.
abbrev two : HandleTable
two = (table_insert cells 1 (new_handle_table cells)).0

two-IsTable : IsTable cells two
two-IsTable =
    (insert-lookup cells (new_handle_table cells) (new_handle_table-IsTable cells).0 1 (1 ∷ []) 4
      (unfold new_handle_table in omega arith)).0

few_entries : two.elems < 2 ^ 31
unfolding table_insert new_handle_table
few_entries = omega arith

insert-lookup_example :
    IsTable cells (table_insert cells 4 two).0
    × (table_lookup cells (1 ∷ []) 4 (table_insert cells 4 two).0
        ≡ (if matches cells (1 ∷ []) 4 4 then some 4 else table_lookup cells (1 ∷ []) 4 two))
    × ((table_insert cells 4 two).1 ≡ table_lookup cells (1 ∷ []) 4 two)
insert-lookup_example = insert-lookup cells two two-IsTable 4 (1 ∷ []) 4 few_entries

remove-lookup_example :
    IsTable cells (table_remove cells (1 ∷ []) 4 two).0
    × (table_lookup cells (2 ∷ []) 8 (table_remove cells (1 ∷ []) 4 two).0 ≡ (
        if (8 == 4) && slice_eq (2 ∷ []) (1 ∷ []) then none else table_lookup cells (2 ∷ []) 8 two))
    × ((table_remove cells (1 ∷ []) 4 two).1 ≡ table_lookup cells (1 ∷ []) 4 two)
remove-lookup_example = remove-lookup cells two two-IsTable (1 ∷ []) (2 ∷ []) 4 8

-- A cache of capacity 2 with two entries of charge 1.
abbrev full : LruCache
full = (insert (codes "b") 7 20 1 (insert (codes "a") 3 10 1 (new_lru_cache 2 cells)).0).0

full-IsCache : IsCache full
full-IsCache =
    (insert-IsCache (codes "b") 7 20 1 (insert (codes "a") 3 10 1 (new_lru_cache 2 cells)).0
      (insert-IsCache (codes "a") 3 10 1 (new_lru_cache 2 cells)
        (new_lru_cache-IsCache 2 cells)).0).0

two_inserted : 1 < full.fresh
unfolding insert new_lru_cache new_handle_table slice_eq
two_inserted = omega arith

operations-IsCache_example :
    let inserted = (insert (codes "c") 5 30 1 full).0 in
    IsCache inserted
    × ((inserted.usage ≤ full.capacity) ⊎ (inserted.lru ≡ []))
    × IsCache (lookup (codes "c") 5 full).0
    × IsCache (release 1 full)
    × IsCache (erase (codes "c") 5 full)
operations-IsCache_example = operations-IsCache full (codes "c") 5 30 1 1 full-IsCache two_inserted

lru_after : LruCache → List ℕ
unfolding insert new_lru_cache release
lru_after s = (insert (codes "c") 5 30 1 s).0.lru

evicts_the_oldest : lru_after (release 0 (release 1 full)) ≡ 1 ∷ 2 ∷ []
unfolding lru_after new_handle_table insert slice_eq release new_lru_cache
evicts_the_oldest = refl

-- Entries that are in use are evicted too, down to the new one.
evicts_all_in_use : lru_after full ≡ []
unfolding lru_after new_handle_table insert slice_eq new_lru_cache
evicts_all_in_use = refl
