-- ===== src/Memtable/Refinement.antt =====
-- `Add` and `Get` of the memtable, against the newest visible entry of all that were added.
use mathlib.Core.Option
use squirrel.Prelude.{ℕ, suc, ◌+◌, ◌^◌, ◌<◌, ◌≡◌, ◌≢◌, refl, sym, ap, ◌∙◌, subst}
use squirrel.Prelude.{Option, some, List, [], ◌∷◌, All, map, length}
use squirrel.Coding.{IsU32}
use squirrel.Status.{Status}
use squirrel.Comparator.{Comparator, IsComparator}
use squirrel.DbFormat.{lookup_key, memtable_key}
use squirrel.DbFormat.Lookup.{lookup_key_slices}
use squirrel.SkipList.Order.{IsOrder, Sorted, from_key}
use squirrel.SkipList.Operations.{
  Represents, keys_from, insert-Represents, seek-from_key, new_skip_list-Represents,
}
use squirrel.Memtable.{MemTable, key_compare, add, get, new_mem_table}
use squirrel.Memtable.Entry.{Entry, encode, IsEntry}
use squirrel.Memtable.Compare.{key_compare-IsOrder}
use squirrel.Memtable.Newest.{consider, newest}
use squirrel.Memtable.Place.{place, place-insert_sorted, All-place, newest-place, fresh_key}
use squirrel.Memtable.Lookup.{result, on_first, get_at-keys_from, on_first-newest}

-- The table holds the entries `added`: in its own order, the newest one visible to a reader is the
-- same.
pub record Holds (user : Comparator) (m : MemTable) (added : List Entry) : Type 1 where
  pub entries : List Entry
  pub table : Represents (key_compare user) m.table (map encode entries)
  pub same : (u : List ℕ) (s : ℕ) → newest user u s entries ≡ newest user u s added
  pub all : (P : Entry → Type 0) → All P added → All P entries

module _ (user : Comparator) (laws : IsComparator user) where
  order : IsOrder (key_compare user)
  order = key_compare-IsOrder user laws

  -- A new memtable holds nothing.
  pub new_mem_table-Holds : Holds user new_mem_table []
  unfolding new_mem_table
  new_mem_table-Holds = record {
    entries = [];
    table = new_skip_list-Represents (key_compare user) [];
    same = λ u s. refl;
    all = λ P h. h;
  }

  -- `Add` returns, and the table holds one entry more, for an entry whose sequence number none of
  -- the others has.
  pub add-Holds :
      (m : MemTable) (added : List Entry) (e : Entry)
      → Holds user m added
      → All IsEntry added
      → IsEntry e
      → All (λ f. f.sequence ≢ e.sequence) added
      → (m' : MemTable) × (add user e.sequence e.value_type e.key e.value m ≡ some m')
        × Holds user m' (e ∷ added)
  unfolding add
  add-Holds m added e h valid he new =
      let es = h.entries in
      let valid' = h.all IsEntry valid in
      let new' = h.all (λ f. f.sequence ≢ e.sequence) new in
      let (t, run, table) =
        insert-Represents (key_compare user) order (encode e) m.table (map encode es) h.table
          (fresh_key user e es he valid' new') in
      (
        record m { table = t },
        rw run refl,
        record {
          entries = place user e es;
          table =
              subst (Represents (key_compare user) t) (sym (place-insert_sorted user e es)) table;
          same = λ u s.
              newest-place user u s e es he valid' new'
              ∙ unfold newest in ap (consider user u s e) (h.same u s);
          all = λ P a. All-place user P e es a.0 (h.all P a.1);
        },
      )

  -- `Get` at a sequence number returns, for every user key, what the newest entry of that key
  -- says that is not newer than the number: its value, NotFound where it is a deletion, and
  -- false, with nothing changed, where there is none.
  pub get-newest :
      (m : MemTable) (added : List Entry)
      → Holds user m added
      → All IsEntry added
      → (u : List ℕ) (s : ℕ) (value : List ℕ) (status : Status) → s < 2 ^ 56
      → IsU32 (length u + 8)
      → get user (lookup_key u s) value status m
        ≡ some (result (newest user u s added) value status)
  unfolding get
  get-newest m added h valid u s value status seq short =
      let es = h.entries in
      let k = memtable_key (lookup_key u s) in
      let (p, run, visits) =
        seek-from_key (key_compare user) order k m.table (map encode es) h.table in
      let sorted = subst (Sorted (key_compare user)) h.table.keys h.table.valid.sorted in
      let first : on_first user u value status (keys_from (suc (length h.table.nodes)) m.table p)
          ≡ on_first user u value status (from_key (key_compare user) k (map encode es)) =
        ap (on_first user u value status)
          (ap (λ c. keys_from c m.table p) (sym h.table.valid.counted) ∙ visits) in
      rw ((lookup_key_slices u s).1, run)
        (ap some (
          get_at-keys_from user m.table u value status p (length h.table.nodes)
          ∙ (first
              ∙ (on_first-newest user laws u s seq short value status es (h.all IsEntry valid)
                    sorted
                  ∙ ap (λ b. result b value status) (h.same u s)))))

-- The entries of a list added to a new memtable, the last one first.
unfoldable pub add_all : Comparator → List Entry → Option MemTable
add_all user [] = some new_mem_table
add_all user (e ∷ es) =
    Option.bind (add_all user es) (add user e.sequence e.value_type e.key e.value)

abbrev pub DistinctNumbers : List Entry → Type 0
DistinctNumbers [] = Unit {0}
DistinctNumbers (e ∷ es) = All (λ f. f.sequence ≢ e.sequence) es × DistinctNumbers es

module _ (user : Comparator) (laws : IsComparator user) where
  add_all-Holds :
      (es : List Entry)
      → All IsEntry es
      → DistinctNumbers es
      → (m : MemTable) × (add_all user es ≡ some m) × Holds user m es
  unfolding add_all Option.bind
  add_all-Holds [] valid distinct = (new_mem_table, refl, new_mem_table-Holds user laws)
  add_all-Holds (e ∷ es) valid distinct =
      let (m, run, h) = add_all-Holds es valid.1 distinct.1 in
      let (m', run', h') = add-Holds user laws m es e h valid.1 valid.0 distinct.0 in
      (m', rw run run', h')

  -- Over a user comparator that meets its interface: whatever entries are added to a new memtable,
  -- with sequence numbers of their own below 2^56, types that the asserts allow, and user keys and
  -- values whose lengths fit 32 bits (with the 8 bytes of the trailer for a key), each `Add`
  -- returns, and then `Get` at a sequence number below 2^56 returns, for every user key whose length
  -- plus 8 fits 32 bits, what the newest entry of that key says that is not newer than the
  -- number: its value, NotFound where it is a deletion, and false, with the caller's variables as
  -- they were, where there is no such entry.
  pub add-get :
      (es : List Entry)
      → All IsEntry es
      → DistinctNumbers es
      → (u : List ℕ) (s : ℕ) (value : List ℕ) (status : Status) → s < 2 ^ 56
      → IsU32 (length u + 8)
      → (m : MemTable) × (add_all user es ≡ some m)
        × (get user (lookup_key u s) value status m
            ≡ some (result (newest user u s es) value status))
  add-get es valid distinct u s value status seq short =
      let (m, run, h) = add_all-Holds es valid distinct in
      (m, run, get-newest user laws m es h valid u s value status seq short)
