-- ===== src/Cache/Evict.antt =====
-- What the eviction of the LRU cache leaves.
use squirrel.Prelude.{
  ℕ, suc, ◌-◌, ◌≡◌, ◌≤◌, ◌⊎◌, refl, subst, ◌∙◌, arith, inl, inr, Bool-cases, Option, none, some,
}
use squirrel.Prelude.{List, [], ◌∷◌, drop, ltb, ◌==◌}
use squirrel.Cache.{table_insert, table_remove}
use squirrel.Cache.Lru.{LruCache, unref, evict, dropped, allocated, lru_remove, insert}

pub unref-lru : (e : ℕ) (s : LruCache) → (unref e s).lru ≡ s.lru
unfolding unref
unref-lru e s = elim (Bool-cases ((s.handles e).refs - 1 == 0)) [
  | inl z ↦ rw z refl
  | inr z ↦ rw z refl
]

unref-capacity : (e : ℕ) (s : LruCache) → (unref e s).capacity ≡ s.capacity
unfolding unref
unref-capacity e s = elim (Bool-cases ((s.handles e).refs - 1 == 0)) [
  | inl z ↦ rw z refl
  | inr z ↦ rw z refl
]

-- The list has lost `n` of its oldest entries, and it is empty or the charges fit.
pub record IsEvicted (lru : List ℕ) (capacity : ℕ) (s : LruCache) : Type 0 where
  pub n : ℕ
  pub oldest : s.lru ≡ drop n lru
  pub kept : s.capacity ≡ capacity
  pub fits : (s.usage ≤ capacity) ⊎ (s.lru ≡ [])

pub evict-IsEvicted :
    (xs : List ℕ) (s : LruCache) → s.lru ≡ xs → IsEvicted xs s.capacity (evict xs s)
unfolding evict
evict-IsEvicted [] s e = record { n = 0; oldest = e; kept = refl; fits = inr e }
evict-IsEvicted (old ∷ rest) s e = elim (Bool-cases (ltb s.capacity s.usage)) [
  | inl over ↦
      let smaller : LruCache = record s {
        lru = rest;
        table = (table_remove s.handles (s.handles old).key (s.handles old).hash s.table).0;
      } in
      let r = evict-IsEvicted rest (unref old smaller) (unref-lru old smaller) in
      rw over (record {
        n = suc r.n;
        oldest = r.oldest;
        kept = r.kept ∙ unref-capacity old smaller;
        fits = elim r.fits [
          | inl few ↦ inl (omega (arith, few, unref-capacity old smaller))
          | inr none_left ↦ inr none_left
        ];
      })
  | inr enough ↦ rw enough (record { n = 0; oldest = e; kept = refl; fits = inl (ground arith) })
]

dropped-capacity : (old : Option ℕ) (s : LruCache) → (dropped old s).capacity ≡ s.capacity
unfolding dropped
dropped-capacity none s = refl
dropped-capacity (some old) s = unref-capacity old (record s { lru = lru_remove old s.lru })

-- `Insert` ends with the usage within the capacity, or with nothing left in the list.
pub insert-fits :
    (key : List ℕ) (hash value charge : ℕ) (s : LruCache)
    → ((insert key hash value charge s).0.usage ≤ s.capacity)
      ⊎ ((insert key hash value charge s).0.lru ≡ [])
unfolding insert
insert-fits key hash value charge s =
    let s1 = allocated key hash value charge s in
    let (table, old) = table_insert s1.handles s.fresh s1.table in
    let s2 = dropped old (record s1 { table = table }) in
    let kept = dropped-capacity old (record s1 { table = table }) in
    let r = evict-IsEvicted s2.lru s2 refl in
    elim r.fits [
      | inl few ↦ inl (subst (λ n. (evict s2.lru s2).usage ≤ n) (kept ∙ refl) few)
      | inr empty ↦ inr empty
    ]
