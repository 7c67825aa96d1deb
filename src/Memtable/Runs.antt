-- ===== src/Memtable/Runs.antt =====
-- Tests of the memtable, and its theorems at concrete entries.
use mathlib.Core.Option
use squirrel.Prelude.{ℕ, ◌≡◌, refl, arith, true, Option, some, List, [], ◌∷◌, codes}
use squirrel.Status.{Status, ok}
use squirrel.Comparator.{bytewise_comparator}
use squirrel.Comparator.Bytewise.{bytewise-IsComparator}
use squirrel.DbFormat.{lookup_key, type_value, type_deletion}
use squirrel.Memtable.{MemTable, GetResult, get}
use squirrel.Memtable.Entry.{Entry}
use squirrel.Memtable.{encoded_len}
use squirrel.Memtable.Newest.{newest}
use squirrel.Memtable.Lookup.{result}
use squirrel.Memtable.Refinement.{add_all, add-get}

abbrev put : List ℕ → ℕ → List ℕ → Entry
put k s v = record { key = k; sequence = s; value_type = type_value; value = v }

abbrev erase : List ℕ → ℕ → Entry
erase k s = record { key = k; sequence = s; value_type = type_deletion; value = [] }

abbrev history : List Entry
history =
    erase (codes "b") 9
    ∷ put (codes "a") 7 (codes "new")
    ∷ put (codes "b") 5 (codes "x")
    ∷ put (codes "a") 2 (codes "old")
    ∷ []

add-get_example :
    (m : MemTable) × (add_all bytewise_comparator history ≡ some m)
    × (get bytewise_comparator (lookup_key (codes "a") 6) [] ok m
        ≡ some (result (newest bytewise_comparator (codes "a") 6 history) [] ok))
add-get_example =
    add-get bytewise_comparator bytewise-IsComparator history
      (omega arith, (omega arith, (omega arith, (omega arith, tt)))) (omega arith) (codes "a") 6 []
      ok (omega arith) (omega arith)

read : List ℕ → ℕ → Option GetResult
read u s =
    Option.bind (add_all bytewise_comparator history)
      (get bytewise_comparator (lookup_key u s) (codes "-") ok)

reads_old_value :
    read (codes "a") 6 ≡ some (record { found = true; value = codes "old"; status = ok })
unfolding read add_all get Option.bind squirrel.Memtable.add squirrel.SkipList.insert
    squirrel.SkipList.find_greater_or_equal squirrel.SkipList.search_from_head
    squirrel.Memtable.new_mem_table squirrel.SkipList.new_skip_list squirrel.SkipList.search_round
    squirrel.SkipList.key_is_after_node squirrel.SkipList.next_of squirrel.SkipList.insert_after
    squirrel.SkipList.link_levels squirrel.SkipList.random_height squirrel.Random.next
    squirrel.Random.new_random squirrel.SkipList.link_level squirrel.SkipList.set_next
    squirrel.Coding.decode_fixed32 squirrel.Coding.decode_fixed64 squirrel.Coding.encode_fixed64
    squirrel.Coding.encode_varint32 squirrel.Coding.get_varint32
    squirrel.Coding.get_varint32_ptr_fallback squirrel.Coding.get_varint_loop
    squirrel.Coding.native_bytes squirrel.Coding.native_value squirrel.Comparator.diff_index
    squirrel.Comparator.find_short_successor squirrel.Comparator.find_shortest_separator
    squirrel.DbFormat.extract_user_key squirrel.DbFormat.internal_compare lookup_key
    squirrel.DbFormat.memtable_key squirrel.DbFormat.pack_sequence_and_type
    squirrel.DbFormat.trailer squirrel.DbFormat.user_key_of squirrel.Memtable.advance
    squirrel.Memtable.encode_entry squirrel.Memtable.get_at squirrel.Memtable.key_compare
    squirrel.Memtable.read_entry squirrel.Memtable.slice_at squirrel.Memtable.varint_at
    squirrel.SkipList.Iterator.seek squirrel.SkipList.after_round squirrel.SkipList.fill_prev
    squirrel.SkipList.key_of squirrel.SkipList.new_node squirrel.SkipList.random_height_loop
    squirrel.SkipList.search_loop squirrel.Slice.memcmp squirrel.Slice.slice_compare
    squirrel.Status.make_status
reads_old_value = refl
