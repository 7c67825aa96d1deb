-- ===== src/Comparator.antt =====
-- include/leveldb/comparator.h and util/comparator.cpp: the interface of key orders, and the
-- byte-wise order. `Name` is a constant that no operation reads, and is left out.
pub mod Bytewise
mod Runs
use Prim.Native.Nat.{Ordering}
use squirrel.Prelude.{ℕ, zero, suc, ◌+◌, ◌%◌, ◌≡◌, ◌≢◌, Bool, true, false, ◌&&◌, List, [], ◌∷◌}
use squirrel.Prelude.{ltb, leb, ◌==◌, if◌then◌else◌, length, take, set, All, min}
use squirrel.Coding.{IsByte, byte_at}
use squirrel.Slice.{slice_compare}

-- A `Comparator` object. The two functions that change a string return the new one.
pub record Comparator : Type 0 where
  pub compare : List ℕ → List ℕ → Ordering
  pub find_shortest_separator : List ℕ → List ℕ → List ℕ
  pub find_short_successor : List ℕ → List ℕ

-- What comparator.h asks of an implementation: a total order on the keys, up to keys that compare
-- equal, separators in [start, limit), and successors that are not smaller than their key.
pub record IsComparator (c : Comparator) : Type 0 where
  pub compare_flip : (a b : List ℕ) → c.compare a b ≡ Ordering.lt → c.compare b a ≡ Ordering.gt
  pub compare_flip' : (a b : List ℕ) → c.compare a b ≡ Ordering.gt → c.compare b a ≡ Ordering.lt
  pub le_trans :
      (x y z : List ℕ)
      → c.compare x y ≢ Ordering.gt
      → c.compare y z ≢ Ordering.gt
      → c.compare x z ≢ Ordering.gt
  pub separator_ge :
      (start limit : List ℕ)
      → c.compare start limit ≡ Ordering.lt
      → c.compare start (c.find_shortest_separator start limit) ≢ Ordering.gt
  pub separator_lt :
      (start limit : List ℕ)
      → c.compare start limit ≡ Ordering.lt
      → c.compare (c.find_shortest_separator start limit) limit ≡ Ordering.lt
  pub successor_ge :
      (key : List ℕ) → All IsByte key → c.compare key (c.find_short_successor key) ≢ Ordering.gt

-- The `while` loop: the length of the common prefix.
unfoldable pub diff_index : List ℕ → List ℕ → ℕ
diff_index (x ∷ start) (y ∷ limit) =
    let rest = diff_index start limit in if x == y then suc rest else 0
diff_index start limit = 0

unfoldable pub find_shortest_separator : List ℕ → List ℕ → List ℕ
unfolding diff_index
find_shortest_separator start limit =
    let min_length = min (length start) (length limit) in
    let i = diff_index start limit in
    let diff_byte = byte_at start i in
    if leb min_length i
    then start
    else if ltb diff_byte 0xff && ltb (diff_byte + 1) (byte_at limit i)
    then take (i + 1) (set start i ((diff_byte + 1) % 256))
    else start

-- The `for` loop: the first byte that is not 0xff goes up by one, and what is behind it goes.
unfoldable pub find_short_successor : List ℕ → List ℕ
find_short_successor [] = []
find_short_successor (byte ∷ key) =
    let rest = find_short_successor key in
    if byte == 0xff then byte ∷ rest else ((byte + 1) % 256) ∷ []

abbrev pub bytewise_comparator : Comparator
bytewise_comparator = record {
  compare = slice_compare;
  find_shortest_separator = find_shortest_separator;
  find_short_successor = find_short_successor;
}
