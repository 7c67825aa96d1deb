-- ===== src/SkipList.antt =====
-- db/skiplist.h: the skip list over any key type and comparator. The nodes stand in a memory
-- of numbered cells, which only grows, as the arena's does: `count` is the first free one and
-- `head_` is cell 0. A pointer is an `Option` of a cell, and nullptr is `none`.
pub mod Iterator
pub mod Chain
pub mod Order
pub mod Search
pub mod State
pub mod Operations
pub mod Distinct
pub mod Invariant
pub mod Splice
pub mod Find
pub mod Insert
pub mod Memory
mod Runs
use Prim.Native.Nat.{Ordering}
use squirrel.Prelude.{ℕ, zero, suc, ◌+◌, ◌-◌, ◌%◌, Bool, true, false, not, ◌&&◌, Option, none, some}
use squirrel.Prelude.{List, ltb, leb, ◌==◌, if◌then◌else◌, get_or, set, length, replicate}
use mathlib.Core.Option
use squirrel.Slice.{is_eq, is_lt}
use squirrel.Random.{Random, new_random, next}

-- `compare_(a, b) >= 0`
abbrev is_ge : Ordering → Bool
is_ge o = not (is_lt o)

abbrev pub Ptr : Type 0
Ptr = Option ℕ

-- `next_[i]` is the link at level `i`, and the array is as long as the node is high.
pub record Node (K : Type 0) : Type 0 where
  pub key : K
  pub links : List Ptr

pub record SkipList (K : Type 0) : Type 0 where
  pub nodes : ℕ → Node K
  pub count : ℕ
  pub max_height : ℕ
  pub rnd : Random

-- `kMaxHeight`, `kBranching` and `head_`.
abbrev pub max_levels : ℕ
max_levels = 12

abbrev branching : ℕ
branching = 4

abbrev pub head : ℕ
head = 0

-- `while (height < kMaxHeight && rnd_.Next() % kBranching == 0) height++`, on fuel: the generator
-- is not asked once the height is `kMaxHeight`.
unfoldable pub random_height_loop : ℕ → ℕ → Random → ℕ × Random
random_height_loop zero height rnd = (height, rnd)
random_height_loop (suc fuel) height rnd =
    let higher = random_height_loop fuel (height + 1) (next rnd) in
    if ltb height max_levels
    then (if (next rnd).seed % branching == 0 then higher else (height, next rnd))
    else (height, rnd)

unfoldable pub random_height : Random → ℕ × Random
unfolding random_height_loop
random_height rnd = random_height_loop max_levels 1 rnd

-- Where a search stands: at node `x` on `level`, with the array `prev`. And how it ends, with the
-- node that it is at, the link behind it, and the array.
pub record Position : Type 0 where
  pub x : ℕ
  pub level : ℕ
  pub prev : ℕ → ℕ

pub record Found : Type 0 where
  pub node : ℕ
  pub next : Ptr
  pub prev : ℕ → ℕ

pub data Round : Type 0 where
  moves : Position → Round
  returns : Found → Round

-- `next != nullptr`, and the node that a pointer is at.
abbrev pub is_node : Ptr → Bool
is_node none = false
is_node (some n) = true

abbrev pub target : Ptr → ℕ → ℕ
target none x = x
target (some n) x = n

-- `x == head_ ? nullptr : x`
abbrev pub unless_head : ℕ → Ptr
unless_head x = if x == head then none else some x

-- `for (i = GetMaxHeight(); i < height; i++) prev[i] = head_`, for all levels at once.
unfoldable pub fill_prev : ℕ → ℕ → (ℕ → ℕ) → ℕ → ℕ
fill_prev from height prev i = if leb from i && ltb i height then head else prev i

unfoldable pub after_round : (Position → Option Found) → Round → Option Found
after_round again (moves p) = again p
after_round again (returns f) = some f

module _ {K : Type 0} where
  -- `x->Next(level)`. A read above the node's height is undefined in the source, and null here.
  unfoldable pub next_of : SkipList K → ℕ → ℕ → Ptr
  next_of s x level = get_or (s.nodes x).links level none

  unfoldable pub key_of : SkipList K → ℕ → K
  key_of s x = (s.nodes x).key

  unfoldable pub height_of : SkipList K → ℕ → ℕ
  height_of s x = length (s.nodes x).links

  -- `x->SetNext(level, p)`
  unfoldable pub set_next : ℕ → ℕ → Ptr → SkipList K → SkipList K
  set_next x level p s =
      let n = s.nodes x in
      record s {
        nodes = λ a. if a == x then record n { links = set n.links level p } else s.nodes a;
      }

  -- `NewNode(key, height)`: the node is the cell `count` of before. Its links are not set yet.
  unfoldable pub new_node : K → ℕ → SkipList K → SkipList K
  new_node k height s =
      let n : Node K = record { key = k; links = replicate height none } in
      record s { nodes = λ a. if a == s.count then n else s.nodes a; count = s.count + 1 }

  -- The constructor. `any_key` is the key 0 that the head is given.
  unfoldable pub new_skip_list : K → SkipList K
  new_skip_list any_key =
      let n : Node K = record { key = any_key; links = replicate max_levels none } in
      record { nodes = λ a. n; count = 1; max_height = 1; rnd = new_random 0xdeadbeef }

  -- `x->next_[i] = prev[i]->next_[i]; prev[i]->next_[i] = x`
  unfoldable pub link_level : ℕ → (ℕ → ℕ) → ℕ → SkipList K → SkipList K
  link_level x prev i s = set_next (prev i) i (some x) (set_next x i (next_of s (prev i) i) s)

  -- The loop over the levels from `i` on, with the rounds that are left.
  unfoldable pub link_levels : ℕ → (prev : ℕ → ℕ) → ℕ → ℕ → SkipList K → SkipList K
  link_levels x prev zero i s = s
  link_levels x prev (suc rounds) i s = link_levels x prev rounds (suc i) (link_level x prev i s)

  -- What `Insert` does once the search has filled `prev`.
  unfoldable pub insert_after : K → (ℕ → ℕ) → SkipList K → SkipList K
  insert_after k prev s =
      let (height, rnd) = random_height s.rnd in
      let prev' = fill_prev s.max_height height prev in
      let top = if ltb s.max_height height then height else s.max_height in
      let s1 : SkipList K = record s { max_height = top; rnd = rnd } in
      link_levels s.count prev' height 0 (new_node k height s1)

  -- One round of a search: move right if `goes next`, else note the node in `prev` and go down,
  -- or return on level 0. Without an array `prev` the note is for nobody.
  unfoldable pub search_round : (Ptr → Bool) → SkipList K → Position → Round
  search_round goes s p =
      let next = next_of s p.x p.level in
      let prev' : ℕ → ℕ = λ i. if i == p.level then p.x else p.prev i in
      if goes next
      then moves (record p { x = target next p.x })
      else if p.level == 0
      then returns (record { node = p.x; next = next; prev = prev' })
      else moves (record { x = p.x; level = p.level - 1; prev = prev' })

  -- The `while (true)` of the three searches, on fuel. `none` is the end of the fuel.
  unfoldable pub search_loop : (Ptr → Bool) → SkipList K → ℕ → Position → Option Found
  unfolding after_round
  search_loop goes s zero p = none
  search_loop goes s (suc fuel) p = after_round (search_loop goes s fuel) (search_round goes s p)

  -- From the head, on the top level. Every round goes right or down.
  unfoldable pub search_from_head : (Ptr → Bool) → SkipList K → Option Found
  unfolding search_loop
  search_from_head goes s =
      let prev : ℕ → ℕ = λ i. head in
      search_loop goes s (s.count + s.max_height)
        (record { x = head; level = s.max_height - 1; prev = prev })

  unfoldable pub find_last : SkipList K → Option ℕ
  find_last s = Option.map (λ f. f.node) (search_from_head is_node s)

  module _ (compare : K → K → Ordering) where
    -- `KeyIsAfterNode`: nullptr stands for infinity.
    unfoldable pub key_is_after_node : SkipList K → K → Ptr → Bool
    key_is_after_node s k none = false
    key_is_after_node s k (some n) = is_lt (compare (key_of s n) k)

    unfoldable pub find_greater_or_equal : K → SkipList K → Option Found
    find_greater_or_equal k s = search_from_head (key_is_after_node s k) s

    -- `next == nullptr || compare_(next->key, key) >= 0`, negated.
    unfoldable pub key_is_before : SkipList K → K → Ptr → Bool
    key_is_before s k none = false
    key_is_before s k (some n) = not (is_ge (compare (key_of s n) k))

    unfoldable pub find_less_than : K → SkipList K → Option ℕ
    find_less_than k s = Option.map (λ f. f.node) (search_from_head (key_is_before s k) s)

    unfoldable pub insert : K → SkipList K → Option (SkipList K)
    insert k s = Option.map (λ f. insert_after k f.prev s) (find_greater_or_equal k s)

    -- `x != nullptr && Equal(key, x->key)`
    unfoldable pub is_equal_at : SkipList K → K → Ptr → Bool
    is_equal_at s k none = false
    is_equal_at s k (some x) = is_eq (compare k (key_of s x))

    unfoldable pub contains : K → SkipList K → Option Bool
    contains k s = Option.map (λ f. is_equal_at s k f.next) (find_greater_or_equal k s)
