-- ===== src/Cache/Usage.antt =====
-- The usage of the LRU cache and the charges of its entries.
use squirrel.Prelude.{
  ℕ, suc, ◌+◌, ◌-◌, ◌%◌, ◌^◌, ◌≡◌, ◌<◌, ◌≤◌, ◌⊎◌, refl, ap, subst, ◌∙◌, arith, inl, inr, Bool-cases,
  Option, none, some,
}
use squirrel.Prelude.{List, [], ◌∷◌, ltb, ◌==◌, All, All-append}
use squirrel.Cache.{Handles, HandleTable, table_insert, table_remove, table_lookup}
use squirrel.Cache.Members.{
  Members, IfSome, table_lookup-IfSome, table_insert-Members, table_remove-Members,
  new_handle_table-Members,
}
use squirrel.Cache.Lru.{
  LruCache, new_lru_cache, with_refs, unref, lru_remove, lru_append, touched, lookup, evict,
  dropped, allocated, insert, release, erase,
}
use squirrel.Cache.Evict.{unref-lru, insert-fits}
use squirrel.Cache.Charges.{
  charges, all_charges, SameCharges, charges-same, all_charges-same, with_refs-charge,
  lru_remove-All, one_more, one_more_in_chains,
}

-- The usage and the charges of the entries that have been deleted are the charges of all entries
-- that have been allocated, up to the 2^64 of a size_t, and the list and the table hold such
-- entries.
pub record IsCache (s : LruCache) : Type 0 where
  pub accounted :
      (s.usage + charges s.handles s.deleted) % 2 ^ 64 ≡ all_charges s.handles s.fresh % 2 ^ 64
  pub listed : All (λ e. e < s.fresh) s.lru
  pub tabled : Members (λ e. e < s.fresh) s.table
  pub freed : All (λ e. e < s.fresh) s.deleted

-- A change of a count of references.
with_refs-IsCache :
    (s : LruCache) (e refs : ℕ)
    → IsCache s
    → IsCache (record s { handles = with_refs s.handles e refs })
with_refs-IsCache s e refs v =
    let handles' = with_refs s.handles e refs in
    let same : SameCharges s.handles handles' s.fresh =
      λ g lt. with_refs-charge s.handles e refs g in
    record {
      accounted =
          rw
            (
              charges-same s.handles handles' s.fresh s.deleted same v.freed,
              all_charges-same s.handles handles' s.fresh same,
            )
            v.accounted;
      listed = v.listed;
      tabled = v.tabled;
      freed = v.freed;
    }

unref-IsCache : (e : ℕ) (s : LruCache) → e < s.fresh → IsCache s → IsCache (unref e s)
unfolding unref
unref-IsCache e s lt v =
    let left = (s.handles e).refs - 1 in
    let s' : LruCache = record s { handles = with_refs s.handles e left } in
    let v' = with_refs-IsCache s e left v in
    elim (Bool-cases (left == 0)) [
      | inl last ↦ rw last (record {
        accounted = omega (arith, v'.accounted, with_refs-charge s.handles e left e);
        listed = v.listed;
        tabled = v.tabled;
        freed = (lt, v.freed);
      })
      | inr more ↦ rw more v'
    ]

unref-fresh : (e : ℕ) (s : LruCache) → (unref e s).fresh ≡ s.fresh
unfolding unref
unref-fresh e s = elim (Bool-cases ((s.handles e).refs - 1 == 0)) [
  | inl z ↦ rw z refl
  | inr z ↦ rw z refl
]

-- The same cache with another list and another table.
relinked :
    (s : LruCache) (lru : List ℕ) (table : HandleTable)
    → All (λ e. e < s.fresh) lru
    → Members (λ e. e < s.fresh) table
    → IsCache s
    → IsCache (record s { lru = lru; table = table })
relinked s lru table a b v = record {
  accounted = v.accounted;
  listed = a;
  tabled = b;
  freed = v.freed;
}

dropped-IsCache :
    (old : Option ℕ) (s : LruCache)
    → IfSome (λ e. e < s.fresh) old
    → IsCache s
    → IsCache (dropped old s)
unfolding dropped
dropped-IsCache none s lt v = v
dropped-IsCache (some old) s lt v =
    let s' : LruCache = record s { lru = lru_remove old s.lru } in
    unref-IsCache old s' lt (
      relinked s (lru_remove old s.lru) s.table
        (lru_remove-All (λ g. g < s.fresh) old s.lru v.listed) v.tabled v)

touched-IsCache :
    (found : Option ℕ) (s : LruCache)
    → IfSome (λ e. e < s.fresh) found
    → IsCache s
    → IsCache (touched found s)
unfolding touched
touched-IsCache none s lt v = v
touched-IsCache (some e) s lt v =
    let refs = ((s.handles e).refs + 1) % 2 ^ 32 in
    let s' : LruCache = record s { handles = with_refs s.handles e refs } in
    let lru = lru_append e (lru_remove e s.lru) in
    relinked s' lru s.table
      (All-append (λ g. g < s.fresh) (lru_remove e s.lru) (e ∷ [])
        (lru_remove-All (λ g. g < s.fresh) e s.lru v.listed) (lt, tt))
      v.tabled (with_refs-IsCache s e refs v)

evict-IsCache : (xs : List ℕ) (s : LruCache) → s.lru ≡ xs → IsCache s → IsCache (evict xs s)
unfolding evict
evict-IsCache [] s e v = v
evict-IsCache (old ∷ rest) s e v = elim (Bool-cases (ltb s.capacity s.usage)) [
  | inl over ↦
      let h = s.handles old in
      let table = (table_remove s.handles h.key h.hash s.table).0 in
      let smaller : LruCache = record s { lru = rest; table = table } in
      let listed = subst (All (λ g. g < s.fresh)) e v.listed in
      let small = table_remove-Members (λ g. g < s.fresh) s.handles h.key h.hash s.table v.tabled in
      rw over (
        evict-IsCache rest (unref old smaller) (unref-lru old smaller)
          (unref-IsCache old smaller listed.0 (relinked s rest table listed.1 small.0 v)))
  | inr enough ↦ rw enough v
]

allocated-IsCache :
    (key : List ℕ) (hash value charge : ℕ) (s : LruCache)
    → IsCache s
    → IsCache (allocated key hash value charge s)
unfolding allocated
allocated-IsCache key hash value charge s v =
    let n = s.fresh in
    let s' = allocated key hash value charge s in
    let old : SameCharges s.handles s'.handles n = λ g lt. ground (arith, lt) in
    let new : (s'.handles n).charge ≡ charge = ground arith in
    let next : all_charges s'.handles (n + 1) ≡ charge + all_charges s.handles n =
      ap (all_charges s'.handles) {x = n + 1} {y = suc n} (omega arith)
      ∙ omega (arith, new, all_charges-same s.handles s'.handles n old) in
    let gone = charges-same s.handles s'.handles n s.deleted old v.freed in
    record {
      accounted = omega (arith, v.accounted, next, gone);
      listed =
          All-append (λ e. e < n + 1) s.lru (n ∷ []) (one_more n s.lru v.listed) (omega arith, tt);
      tabled = one_more_in_chains n s.table.buckets v.tabled;
      freed = one_more n s.deleted v.freed;
    }

-- A new cache has no entries.
pub new_lru_cache-IsCache :
    (capacity : ℕ) (handles : Handles) → IsCache (new_lru_cache capacity handles)
unfolding new_lru_cache
new_lru_cache-IsCache capacity handles = record {
  accounted = refl;
  listed = tt;
  tabled = new_handle_table-Members (λ e. e < 0) handles;
  freed = tt;
}

pub insert-IsCache :
    (key : List ℕ) (hash value charge : ℕ) (s : LruCache)
    → IsCache s
    → IsCache (insert key hash value charge s).0
      × (((insert key hash value charge s).0.usage ≤ s.capacity)
          ⊎ ((insert key hash value charge s).0.lru ≡ []))
insert-IsCache key hash value charge s v =
    let s1 = allocated key hash value charge s in
    let made = table_insert s1.handles s.fresh s1.table in
    let s2 : LruCache = record s1 { table = made.0 } in
    let s3 = dropped made.1 s2 in
    let v1 = allocated-IsCache key hash value charge s v in
    let at : s.fresh < s1.fresh = unfold allocated in omega arith in
    let held = table_insert-Members (λ e. e < s1.fresh) s1.handles s.fresh s1.table at v1.tabled in
    let v2 : IsCache s2 = relinked s1 s1.lru made.0 v1.listed held.0 v1 in
    (
      unfold insert in evict-IsCache s3.lru s3 refl (dropped-IsCache made.1 s2 held.1 v2),
      insert-fits key hash value charge s,
    )

others-IsCache :
    (key : List ℕ) (hash e : ℕ) (s : LruCache)
    → e < s.fresh
    → IsCache s
    → IsCache (lookup key hash s).0 × IsCache (release e s) × IsCache (erase key hash s)
others-IsCache key hash e s lt v =
    let out = table_remove s.handles key hash s.table in
    let held = table_remove-Members (λ g. g < s.fresh) s.handles key hash s.table v.tabled in
    (
      unfold lookup in
          touched-IsCache (table_lookup s.handles key hash s.table) s
            (table_lookup-IfSome (λ g. g < s.fresh) s.handles key hash s.table v.tabled) v,
      unfold release in unref-IsCache e s lt v,
      unfold erase in
          dropped-IsCache out.1 (record s { table = out.0 }) held.1
            (relinked s s.lru out.0 v.listed held.0 v),
    )

-- Every operation of the cache of a shard keeps the account, `Release` where it is called on an
-- entry that has been inserted. The account is that the usage, with the charges of the entries that
-- have been deleted, is the sum of the charges of all entries that have been inserted, up to the
-- 2^64 of a size_t, and that the list and the table hold such entries. And `Insert` evicts until
-- the usage is at most the capacity, or nothing is left in the list.
pub operations-IsCache :
    (s : LruCache) (key : List ℕ) (hash value charge e : ℕ)
    → IsCache s
    → e < s.fresh
    → let inserted = (insert key hash value charge s).0 in
      IsCache inserted
      × ((inserted.usage ≤ s.capacity) ⊎ (inserted.lru ≡ []))
      × IsCache (lookup key hash s).0
      × IsCache (release e s)
      × IsCache (erase key hash s)
operations-IsCache s key hash value charge e v lt =
    let added = insert-IsCache key hash value charge s v in
    let others = others-IsCache key hash e s lt v in
    (added.0, added.1, others.0, others.1, others.2)
