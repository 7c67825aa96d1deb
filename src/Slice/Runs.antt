-- ===== src/Slice/Runs.antt =====
-- Runs of slices.
use Prim.Native.Nat.{Ordering}
use squirrel.Prelude.{◌≡◌, refl, codes}
use squirrel.Slice.{slice_compare}
use squirrel.Slice.Order.{lexicographic, slice_compare-lexicographic}

prefix_first : slice_compare (codes "app") (codes "apple") ≡ Ordering.lt
unfolding slice_compare
prefix_first = refl

slice_compare-lexicographic_example :
    slice_compare (codes "apple") (codes "ape") ≡ lexicographic (codes "apple") (codes "ape")
slice_compare-lexicographic_example = slice_compare-lexicographic (codes "apple") (codes "ape")
