-- ===== src/Table/Merger.antt =====
-- table/merger.cpp: an iterator over the entries of several others. A child is the state of an
-- iterator, and `IteratorWrapper`, which keeps its validity and its key, is the child itself.
pub mod Smallest
mod Runs
use Prim.Native.Nat.{Ordering}
use squirrel.Prelude.{ℕ, zero, suc, ◌+◌, ◌≡◌, Bool, true, false, ◌&&◌, not, Option, none, some}
use squirrel.Prelude.{List, [], ◌∷◌, map, get_elem?, ◌==◌, if◌then◌else◌}
use squirrel.Status.{Status, ok, is_ok}
use squirrel.Comparator.{Comparator}

-- The operations of an `Iterator` on its states.
pub record Iterator (C : Type 0) : Type 0 where
  pub valid : C → Bool
  pub key : C → List ℕ
  pub value : C → List ℕ
  pub status : C → Status
  pub seek_to_first : C → C
  pub seek_to_last : C → C
  pub seek : List ℕ → C → C
  pub next : C → C
  pub prev : C → C

pub record MergingIterator (C : Type 0) : Type 0 where
  pub children : List C
  pub current : Option ℕ
  pub forward : Bool

abbrev pub is_lt : Ordering → Bool
is_lt Ordering.lt = true
is_lt Ordering.eq = false
is_lt Ordering.gt = false

abbrev pub is_gt : Ordering → Bool
is_gt Ordering.lt = false
is_gt Ordering.eq = false
is_gt Ordering.gt = true

abbrev pub is_zero : Ordering → Bool
is_zero Ordering.lt = false
is_zero Ordering.eq = true
is_zero Ordering.gt = false

module _ {C : Type 0} (it : Iterator C) (cmp : Comparator) where
  -- A child with its number.
  abbrev pub Child : Type 0
  Child = ℕ × C

  abbrev pub smaller : Child → Option Child → Option Child
  smaller child none = some child
  smaller child (some smallest) =
      if is_lt (cmp.compare (it.key child.1) (it.key smallest.1)) then some child else some smallest

  -- The loop of `FindSmallest` from child `i` on.
  unfoldable pub smallest_from : ℕ → List C → Option Child → Option Child
  smallest_from i [] smallest = smallest
  smallest_from i (c ∷ cs) smallest =
      smallest_from (suc i) cs (if it.valid c then smaller (i, c) smallest else smallest)

  abbrev pub larger : Child → Option Child → Option Child
  larger child none = some child
  larger child (some largest) =
      if is_gt (cmp.compare (it.key child.1) (it.key largest.1)) then some child else some largest

  -- The loop of `FindLargest` from the last child down to child `i`.
  unfoldable pub largest_from : ℕ → List C → Option Child
  largest_from i [] = none
  largest_from i (c ∷ cs) =
      let largest = largest_from (suc i) cs in if it.valid c then larger (i, c) largest else largest

  abbrev pub number_of : Option Child → Option ℕ
  number_of none = none
  number_of (some child) = some child.0

  unfoldable pub find_smallest : MergingIterator C → MergingIterator C
  unfolding smallest_from
  find_smallest m = record m { current = number_of (smallest_from 0 m.children none) }

  unfoldable pub find_largest : MergingIterator C → MergingIterator C
  unfolding largest_from
  find_largest m = record m { current = number_of (largest_from 0 m.children) }

  unfoldable pub seek_to_first : MergingIterator C → MergingIterator C
  unfolding find_smallest
  seek_to_first m =
      record (find_smallest (record m { children = map it.seek_to_first m.children })) {
        forward = true;
      }

  unfoldable pub seek_to_last : MergingIterator C → MergingIterator C
  unfolding find_largest
  seek_to_last m = record (find_largest (record m { children = map it.seek_to_last m.children })) {
    forward = false;
  }

  unfoldable pub seek : List ℕ → MergingIterator C → MergingIterator C
  unfolding find_smallest
  seek target m = record (find_smallest (record m { children = map (it.seek target) m.children })) {
    forward = true;
  }

  -- A child that is not the current one is placed behind the key, or before it.
  unfoldable pub place_behind : List ℕ → C → C
  place_behind key c =
      let c' = it.seek key c in
      if it.valid c' && is_zero (cmp.compare key (it.key c')) then it.next c' else c'

  unfoldable pub place_before : List ℕ → C → C
  place_before key c =
      let c' = it.seek key c in if it.valid c' then it.prev c' else it.seek_to_last c'

  -- The children from number `i` on, with `f` for the one of number `j` and `g` for the others.
  unfoldable pub at_and_around : ℕ → ℕ → (C → C) → (C → C) → List C → List C
  at_and_around i j f g [] = []
  at_and_around i j f g (c ∷ cs) = (if i == j then f c else g c) ∷ at_and_around (suc i) j f g cs

  unfoldable pub current_child : MergingIterator C → Option Child
  current_child m = elim m.current [
    | none ↦ none
    | some j ↦ elim (get_elem? m.children j) [ none ↦ none | some c ↦ some (j, c) ]
  ]

  -- `Next` and `Prev` are called on a valid iterator, and change nothing otherwise.
  unfoldable pub next_of : Option Child → MergingIterator C → MergingIterator C
  unfolding find_smallest at_and_around place_behind
  next_of none m = m
  next_of (some (j, c)) m =
      let others : C → C = if m.forward then (λ x. x) else place_behind (it.key c) in
      find_smallest
        (record m { children = at_and_around 0 j it.next others m.children; forward = true })

  unfoldable pub prev_of : Option Child → MergingIterator C → MergingIterator C
  unfolding find_largest at_and_around place_before
  prev_of none m = m
  prev_of (some (j, c)) m =
      let others : C → C = if m.forward then place_before (it.key c) else (λ x. x) in
      find_largest
        (record m { children = at_and_around 0 j it.prev others m.children; forward = false })

  -- `status()`, the first that is not OK, and the last one when all are.
  unfoldable pub status_of : List C → Status
  status_of [] = ok
  status_of (c ∷ []) = it.status c
  status_of (c ∷ d ∷ cs) =
      let rest = status_of (d ∷ cs) in if is_ok (it.status c) then rest else it.status c
