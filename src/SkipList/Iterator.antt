-- ===== src/SkipList/Iterator.antt =====
-- `SkipList::Iterator`: the list that it is over is an argument, and its state is `node_`. `Next`
-- and `Prev` are for a valid iterator.
use squirrel.Prelude.{ℕ, Bool, true, false, Option, none, some}
use mathlib.Core.Option
use squirrel.SkipList.{Ptr, SkipList, head, unless_head, next_of, key_of, find_last}
use squirrel.SkipList.{find_less_than, find_greater_or_equal}
use Prim.Native.Nat.{Ordering}

unfoldable pub valid : Ptr → Bool
valid none = false
valid (some n) = true

module _ {K : Type 0} where
  unfoldable pub next : SkipList K → ℕ → Ptr
  next s node = next_of s node 0

  unfoldable pub seek_to_first : SkipList K → Ptr
  seek_to_first s = next_of s head 0

  unfoldable pub seek_to_last : SkipList K → Option Ptr
  seek_to_last s = Option.map unless_head (find_last s)

  module _ (compare : K → K → Ordering) where
    unfoldable pub prev : SkipList K → ℕ → Option Ptr
    prev s node = Option.map unless_head (find_less_than compare (key_of s node) s)

    unfoldable pub seek : K → SkipList K → Option Ptr
    seek k s = Option.map (λ f. f.next) (find_greater_or_equal compare k s)
