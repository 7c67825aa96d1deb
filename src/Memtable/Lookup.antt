-- ===== src/Memtable/Lookup.antt =====
-- What `Get` finds in the sorted entries.
use Prim.Native.Nat.{Ordering}
use squirrel.Prelude.{ℕ, suc, ◌+◌, ◌^◌, ◌<◌, ◌≡◌, ◌≢◌, refl, arith}
use squirrel.Prelude.{
  true, false, Option, none, some, List, [], ◌∷◌, All, map, length, Bool-cases, inl, inr,
}
use squirrel.Coding.{IsU32}
use squirrel.Slice.{is_lt}
use squirrel.Status.{Status}
use squirrel.Comparator.{Comparator, IsComparator}
use squirrel.DbFormat.{lookup_key, memtable_key}
use squirrel.SkipList.{SkipList, Ptr}
use squirrel.SkipList.Order.{Sorted, from_key}
use squirrel.SkipList.Operations.{keys_from}
use squirrel.Memtable.{GetResult, key_compare, get_at, read_entry}
use squirrel.Memtable.Entry.{Entry, encode, IsEntry}
use squirrel.Memtable.Compare.{
  key_compare-encode, key_compare-lookup_key, outcome, read_entry-encode,
}
use squirrel.Memtable.Newest.{rank, visible, newest, newest-none, newest-first}

unfoldable pub missing : List ℕ → Status → GetResult
missing value status = record { found = false; value = value; status = status }

-- What `Get` returns for the entry that it is to see.
unfoldable pub result : Option Entry → List ℕ → Status → GetResult
unfolding missing outcome
result none value status = missing value status
result (some e) value status = outcome e value status

-- The entry at which a search stands, by what `Next` would visit.
unfoldable pub on_first : Comparator → List ℕ → List ℕ → Status → List (List ℕ) → GetResult
on_first user u value status [] = missing value status
on_first user u value status (e ∷ es) = read_entry user e u value status

pub get_at-keys_from :
    (user : Comparator) (t : SkipList (List ℕ)) (u value : List ℕ) (status : Status) (p : Ptr)
    (n : ℕ)
    → get_at user t u value status p ≡ on_first user u value status (keys_from (suc n) t p)
unfolding get_at keys_from on_first missing
get_at-keys_from user t u value status none n = refl
get_at-keys_from user t u value status (some x) n = refl

module _ (user : Comparator) (laws : IsComparator user) (u : List ℕ) (s : ℕ) (seq : s < 2 ^ 56)
    (short : IsU32 (length u + 8)) where
  abbrev seek : List ℕ
  seek = memtable_key (lookup_key u s)

  older_behind :
      (e f : Entry)
      → IsEntry e
      → IsEntry f
      → user.compare e.key u ≡ Ordering.eq
      → key_compare user (encode e) (encode f) ≡ Ordering.lt
      → visible user u s f ≡ true
      → rank f < rank e
  older_behind e f he hf at less v = ground (
    arith,
    key_compare-encode user e f he hf,
    laws.le_trans e.key u f.key,
    laws.le_trans f.key u e.key,
    laws.compare_flip' u f.key,
    laws.compare_flip' u e.key,
    laws.compare_flip e.key f.key,
    laws.compare_flip f.key e.key,
    he.packed,
    hf.packed,
  )

  hidden_behind :
      (e f : Entry)
      → IsEntry e
      → IsEntry f
      → user.compare e.key u ≡ Ordering.gt
      → key_compare user (encode e) (encode f) ≡ Ordering.lt
      → visible user u s f ≡ false
  hidden_behind e f he hf past less =
      ground (arith, key_compare-encode user e f he hf, laws.le_trans e.key f.key u)

  hidden_before :
      (e : Entry)
      → IsEntry e
      → is_lt (key_compare user (encode e) seek) ≡ true
      → visible user u s e ≡ false
  hidden_before e he less =
      ground (arith, key_compare-lookup_key user e u s he (seq, omega arith) short, he.packed)

  visible_here :
      (e : Entry)
      → IsEntry e
      → is_lt (key_compare user (encode e) seek) ≡ false
      → (user.compare e.key u ≢ Ordering.lt)
        × (user.compare e.key u ≡ Ordering.eq → visible user u s e ≡ true)
  visible_here e he there =
      ground (arith, key_compare-lookup_key user e u s he (seq, omega arith) short, he.packed)

  older :
      (e : Entry) (es : List Entry)
      → IsEntry e
      → All IsEntry es
      → user.compare e.key u ≡ Ordering.eq
      → All (λ j. key_compare user (encode e) j ≡ Ordering.lt) (map encode es)
      → All (λ f. visible user u s f ≡ true → rank f < rank e) es
  older e [] he hes at less = tt
  older e (f ∷ es) he hes at less =
      (older_behind e f he hes.0 at less.0, older e es he hes.1 at less.1)

  hidden :
      (e : Entry) (es : List Entry)
      → IsEntry e
      → All IsEntry es
      → user.compare e.key u ≡ Ordering.gt
      → All (λ j. key_compare user (encode e) j ≡ Ordering.lt) (map encode es)
      → All (λ f. visible user u s f ≡ false) es
  hidden e [] he hes at less = tt
  hidden e (f ∷ es) he hes at less =
      (hidden_behind e f he hes.0 at less.0, hidden e es he hes.1 at less.1)

  read_first :
      (value : List ℕ) (status : Status) (e : Entry) (es : List Entry) (o : Ordering)
      → IsEntry e
      → All IsEntry es
      → is_lt (key_compare user (encode e) seek) ≡ false
      → All (λ j. key_compare user (encode e) j ≡ Ordering.lt) (map encode es)
      → user.compare e.key u ≡ o
      → read_entry user (encode e) u value status ≡ result (newest user u s (e ∷ es)) value status
  unfolding result missing
  read_first value status e es Ordering.lt he hes there less at =
      absurd ((visible_here e he there).0 at)
  read_first value status e es Ordering.eq he hes there less at =
      rw
        (
          read_entry-encode user e u value status he,
          at,
          newest-first user u s e es ((visible_here e he there).1 at) (older e es he hes at less),
        )
        refl
  read_first value status e es Ordering.gt he hes there less at =
      rw
        (
          read_entry-encode user e u value status he,
          at,
          newest-none user u s (e ∷ es) (ground (arith, at), hidden e es he hes at less),
        )
        refl

  -- The first entry from the seek key on is the newest visible one, if it is of the user key.
  pub on_first-newest :
      (value : List ℕ) (status : Status) (es : List Entry)
      → All IsEntry es
      → Sorted (key_compare user) (map encode es)
      → on_first user u value status (from_key (key_compare user) seek (map encode es))
        ≡ result (newest user u s es) value status
  unfolding from_key on_first result
  on_first-newest value status [] hes sorted = unfold newest in refl
  on_first-newest value status (e ∷ es) hes sorted =
      elim (Bool-cases (is_lt (key_compare user (encode e) seek))) [
        | inl before ↦
            let skip : newest user u s (e ∷ es) ≡ newest user u s es =
              unfold newest in rw (hidden_before e hes.0 before) refl in
            rw (before, skip) (on_first-newest value status es hes.1 sorted.1)
        | inr there ↦ rw there (read_first value status e es _ hes.0 hes.1 there sorted.0 refl)
      ]
