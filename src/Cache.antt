-- ===== src/Cache.antt =====
-- util/cache.cpp: the hash table of handles, the LRU cache, and the sharded cache. A handle is the
-- number of a cell, and cells are not used again. A chain of the hash table is the list of its
-- handles in the order of `next_hash`, and the circular list is the list of its handles from
-- `lru_.next`, the oldest one, to `lru_.prev`. A value is a number. The locks are left out.
pub mod Chains
pub mod Buckets
pub mod Resize
pub mod Table
pub mod Insert
pub mod Remove
pub mod Lru
pub mod Evict
pub mod Members
pub mod Charges
pub mod Usage
pub mod Sharded
mod Runs
use squirrel.Prelude.{
  ℕ, zero, suc, ◌+◌, ◌-◌, ◌*◌, ◌/◌, ◌%◌, ◌^◌, bit_and, Bool, true, false, ◌&&◌, Option, none, some,
}
use squirrel.Prelude.{
  List, [], ◌∷◌, ◌++◌, ltb, leb, ◌==◌, if◌then◌else◌, length, get_or, set, replicate,
}
use squirrel.Slice.{slice_eq}
use squirrel.Hash.{hash}

-- An `LRUHandle`. `in_cache` is never written, and the links are in the lists that hold it.
pub record Handle : Type 0 where
  pub value : ℕ
  pub charge : ℕ
  pub key : List ℕ
  pub hash : ℕ
  pub refs : ℕ

abbrev pub Handles : Type 0
Handles = ℕ → Handle

-- `length_` and `elems_`, and the array with its chains.
pub record HandleTable : Type 0 where
  pub length_ : ℕ
  pub elems : ℕ
  pub buckets : List (List ℕ)

unfoldable pub slot_of : HandleTable → ℕ → ℕ
slot_of t hash = bit_and hash (t.length_ - 1)

-- `*ptr` and `(*ptr)->next_hash`
abbrev pub first : List ℕ → Option ℕ
first [] = none
first (h ∷ chain) = some h

abbrev pub behind : List ℕ → List ℕ
behind [] = []
behind (h ∷ chain) = chain

-- `while (new_length < elems_) new_length *= 2`, on fuel. From 4 the loop ends after 29 rounds when
-- `elems_` is 2^31 at most, and never when it is more, since `new_length` is then 0.
unfoldable pub grow : ℕ → ℕ → ℕ → ℕ
grow zero elems new_length = new_length
grow (suc fuel) elems new_length =
    let larger = grow fuel elems (new_length * 2 % 2 ^ 32) in
    if ltb new_length elems then larger else new_length

module _ (handles : Handles) where
  -- `!(h->hash != hash || key != h->key())`
  abbrev pub matches : List ℕ → ℕ → ℕ → Bool
  matches key hash h = ((handles h).hash == hash) && slice_eq key (handles h).key

  -- The chain before the slot that `FindPointer` returns, and the chain from it on.
  unfoldable pub find_in_chain : List ℕ → ℕ → List ℕ → List ℕ × List ℕ
  find_in_chain key hash [] = ([], [])
  find_in_chain key hash (h ∷ chain) =
      let (before, from) = find_in_chain key hash chain in
      if matches key hash h then ([], h ∷ chain) else (h ∷ before, from)

  unfoldable pub find_pointer : List ℕ → ℕ → HandleTable → List ℕ × List ℕ
  unfolding find_in_chain slot_of
  find_pointer key hash t = find_in_chain key hash (get_or t.buckets (slot_of t hash) [])

  unfoldable pub table_lookup : List ℕ → ℕ → HandleTable → Option ℕ
  unfolding find_pointer
  table_lookup key hash t = first (find_pointer key hash t).1

  -- `h->next_hash = *ptr; *ptr = h` in the new array, for a whole chain.
  unfoldable pub move_chain : ℕ → List ℕ → List (List ℕ) → List (List ℕ)
  move_chain new_length [] new_list = new_list
  move_chain new_length (h ∷ chain) new_list =
      let i = bit_and (handles h).hash (new_length - 1) in
      move_chain new_length chain (set new_list i (h ∷ get_or new_list i []))

  unfoldable pub move_all : ℕ → List (List ℕ) → List (List ℕ) → List (List ℕ)
  unfolding move_chain
  move_all new_length [] new_list = new_list
  move_all new_length (chain ∷ list) new_list =
      move_all new_length list (move_chain new_length chain new_list)

  unfoldable pub resize_table : HandleTable → HandleTable
  unfolding grow move_all
  resize_table t =
      let new_length = grow 29 t.elems 4 in
      record {
        length_ = new_length;
        elems = t.elems;
        buckets = move_all new_length t.buckets (replicate new_length []);
      }

  unfoldable pub new_handle_table : HandleTable
  unfolding resize_table
  new_handle_table = resize_table (record { length_ = 0; elems = 0; buckets = [] })

  -- The chain with `h` in the place of the entry that the slot points to, if there is one.
  unfoldable pub with_handle : ℕ → List ℕ → ℕ → HandleTable → HandleTable
  unfolding find_pointer slot_of
  with_handle h key hash t =
      let (before, from) = find_pointer key hash t in
      record t { buckets = set t.buckets (slot_of t hash) (before ++ (h ∷ behind from)) }

  -- `elems_` is a uint32_t.
  counted : HandleTable → Option ℕ → HandleTable
  counted t (some old) = t
  counted t none =
      let t' : HandleTable = record t { elems = (t.elems + 1) % 2 ^ 32 } in
      if ltb t.length_ t'.elems then resize_table t' else t'

  -- The new table, and the handle that had the key before.
  unfoldable pub table_insert : ℕ → HandleTable → HandleTable × Option ℕ
  unfolding with_handle counted table_lookup
  table_insert h t =
      let key = (handles h).key in
      let hash = (handles h).hash in
      let old = table_lookup key hash t in (counted (with_handle h key hash t) old, old)

  removed : List ℕ → ℕ → HandleTable → Option ℕ → HandleTable
  removed key hash t none = t
  removed key hash t (some result) =
      let (before, from) = find_pointer key hash t in
      record t {
        elems = t.elems - 1;
        buckets = set t.buckets (slot_of t hash) (before ++ behind from);
      }

  unfoldable pub table_remove : List ℕ → ℕ → HandleTable → HandleTable × Option ℕ
  unfolding removed table_lookup
  table_remove key hash t =
      let result = table_lookup key hash t in (removed key hash t result, result)
