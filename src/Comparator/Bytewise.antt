-- ===== src/Comparator/Bytewise.antt =====
-- The byte-wise comparator meets the interface.
use Prim.Native.Nat.{Ordering}
use native.Mathlib.Numerals.{add-one}
use squirrel.Prelude.{true, false}
use squirrel.Prelude.{ℕ, ◌+◌, ◌%◌, ◌≤◌, ◌≡◌, ◌≢◌, arith}
use squirrel.Prelude.{
  List, [], ◌∷◌, length, set, length-take, length-set, All, ltb, ◌==◌, if◌then◌else◌, ◌&&◌,
  Bool-cases, inl, inr,
}
use squirrel.Coding.{IsByte, byte_at}
use squirrel.Slice.{slice_compare}
use squirrel.Slice.Order.{lexicographic, slice_compare-lexicographic, lexicographic_refl}
use squirrel.Slice.Order.{lexicographic-flip, lexicographic_trans}
use squirrel.Comparator.{diff_index, find_shortest_separator, find_short_successor}
use squirrel.Comparator.{IsComparator, bytewise_comparator}

-- On a common first byte the separator keeps it and goes on.
separator_cons :
    (x y : ℕ) (s l : List ℕ)
    → x ≡ y
    → find_shortest_separator (x ∷ s) (y ∷ l) ≡ x ∷ find_shortest_separator s l
unfolding find_shortest_separator
separator_cons x y s l e =
    let same : (x == y) ≡ true = ground arith in rw same (simp add-one (ground arith))

separator_ne :
    (x y : ℕ) (s l : List ℕ)
    → x ≢ y
    → find_shortest_separator (x ∷ s) (y ∷ l)
      ≡ (if ltb x 0xff && ltb (x + 1) y then (x + 1) ∷ [] else x ∷ s)
unfolding find_shortest_separator
separator_ne x y s l e = let differ : (x == y) ≡ false = ground arith in rw differ (ground arith)

separator_lem :
    (s l : List ℕ)
    → lexicographic s l ≡ Ordering.lt
    → (lexicographic s (find_shortest_separator s l) ≢ Ordering.gt)
      × (lexicographic (find_shortest_separator s l) l ≡ Ordering.lt)
unfolding lexicographic
separator_lem [] [] h = cc
separator_lem [] (y ∷ l) h = unfold find_shortest_separator in ground arith
separator_lem (x ∷ s) [] h = cc
separator_lem (x ∷ s) (y ∷ l) h = elim (Bool-cases (x == y)) [
  | inl same ↦ rw (separator_cons x y s l (ground arith)) (ground (arith, separator_lem s l))
  | inr differ ↦ rw (separator_ne x y s l (ground arith)) (ground (arith, lexicographic_refl s))
]

successor_lem : (k : List ℕ) → All IsByte k → lexicographic k (find_short_successor k) ≢ Ordering.gt
unfolding lexicographic find_short_successor
successor_lem [] h = λ e. cc
successor_lem (x ∷ k) h = ground (arith, successor_lem k)

-- The byte-wise comparator is a total order by `Compare`, its separators lie in [start, limit),
-- and its successors are not smaller than their key.
pub bytewise-IsComparator : IsComparator bytewise_comparator
bytewise-IsComparator = record {
  compare_flip = λ a b h. ground (arith, spec a b, spec b a, lexicographic-flip a b);
  compare_flip' = λ a b h. ground (arith, spec a b, spec b a, lexicographic-flip a b);
  le_trans = λ a b c h g. rw spec (lexicographic_trans a b c (rw spec at h) (rw spec at g));
  separator_ge = λ s l h. rw spec ((separator_lem s l (rw spec at h)).0);
  separator_lt = λ s l h. rw spec ((separator_lem s l (rw spec at h)).1);
  successor_ge = λ k h. rw spec (successor_lem k h);
}
  where
    spec : (a b : List ℕ) → slice_compare a b ≡ lexicographic a b
    spec = slice_compare-lexicographic

length-find_shortest_separator :
    (start limit : List ℕ) → length (find_shortest_separator start limit) ≤ length start
unfolding find_shortest_separator
length-find_shortest_separator start limit =
    let i = diff_index start limit in
    let v = (byte_at start i + 1) % 256 in
    ground (arith, length-take (i + 1) (set start i v), length-set start i v)

length-find_short_successor : (key : List ℕ) → length (find_short_successor key) ≤ length key
unfolding find_short_successor
length-find_short_successor [] = omega arith
length-find_short_successor (x ∷ key) = ground (arith, length-find_short_successor key)

-- The byte-wise separator of two strings, the first of which is smaller, is not smaller than the
-- first, smaller than the second, and no longer than the first.
pub find_shortest_separator_bounds :
    (start limit : List ℕ)
    → slice_compare start limit ≡ Ordering.lt
    → (slice_compare start (find_shortest_separator start limit) ≢ Ordering.gt)
      × (slice_compare (find_shortest_separator start limit) limit ≡ Ordering.lt)
      × (length (find_shortest_separator start limit) ≤ length start)
find_shortest_separator_bounds start limit h = (
  laws.separator_ge start limit h,
  laws.separator_lt start limit h,
  length-find_shortest_separator start limit,
)
  where
    laws : IsComparator bytewise_comparator
    laws = bytewise-IsComparator

-- The byte-wise successor of a string of bytes is not smaller than the string, and no longer.
pub find_short_successor_bounds :
    (key : List ℕ)
    → All IsByte key
    → (slice_compare key (find_short_successor key) ≢ Ordering.gt)
      × (length (find_short_successor key) ≤ length key)
find_short_successor_bounds key h =
    (IsComparator.successor_ge bytewise-IsComparator key h, length-find_short_successor key)
