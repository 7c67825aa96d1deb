-- ===== src/Comparator/Runs.antt =====
-- Runs of the byte-wise comparator.
use Prim.Native.Nat.{Ordering}
use squirrel.Prelude.{ℕ, ◌≤◌, ◌≡◌, ◌≢◌, refl, arith, [], ◌∷◌, length, codes}
use squirrel.Slice.{slice_compare}
use squirrel.Comparator.{find_shortest_separator, find_short_successor}
use squirrel.Comparator.Bytewise.{find_shortest_separator_bounds, find_short_successor_bounds}

separator_of_words : find_shortest_separator (codes "abc1xyz") (codes "abc9") ≡ codes "abc2"
unfolding find_shortest_separator
separator_of_words = refl

-- The second string begins with the first one, so there is no shorter separator.
separator_of_prefix : find_shortest_separator (codes "abc") (codes "abcd") ≡ codes "abc"
unfolding find_shortest_separator
separator_of_prefix = refl

successor_of_word : find_short_successor (0xff ∷ 0x41 ∷ 0x42 ∷ []) ≡ 0xff ∷ 0x42 ∷ []
unfolding find_short_successor
successor_of_word = refl

find_shortest_separator_bounds_example :
    (slice_compare (codes "abc1xyz") (find_shortest_separator (codes "abc1xyz") (codes "abc9"))
      ≢ Ordering.gt)
    × (slice_compare (find_shortest_separator (codes "abc1xyz") (codes "abc9")) (codes "abc9")
        ≡ Ordering.lt)
    × (length (find_shortest_separator (codes "abc1xyz") (codes "abc9")) ≤ length (codes "abc1xyz"))
unfolding slice_compare
find_shortest_separator_bounds_example =
    find_shortest_separator_bounds (codes "abc1xyz") (codes "abc9") refl

find_short_successor_bounds_example :
    (slice_compare (0xff ∷ 0x41 ∷ 0x42 ∷ []) (find_short_successor (0xff ∷ 0x41 ∷ 0x42 ∷ []))
      ≢ Ordering.gt)
    × (length (find_short_successor (0xff ∷ 0x41 ∷ 0x42 ∷ []))
        ≤ length {A = ℕ} (0xff ∷ 0x41 ∷ 0x42 ∷ []))
find_short_successor_bounds_example =
    find_short_successor_bounds (0xff ∷ 0x41 ∷ 0x42 ∷ []) (omega arith)
