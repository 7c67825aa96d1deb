-- ===== src/SkipList/Runs.antt =====
-- Tests of the skip list.
use Prim.Native.Nat.{ℕ, compare}
use mathlib.Core.Option
use squirrel.Prelude.{◌≡◌, refl, arith, Option, none, some, List, [], ◌∷◌, zero, suc}
use squirrel.SkipList.{SkipList, Ptr, new_skip_list, insert, contains, key_of, next_of}
use squirrel.SkipList.Iterator.{seek_to_first, seek}
use squirrel.SkipList.Order.{IsOrder, has_equal, insert_sorted, from_key}
use squirrel.SkipList.Operations.{
  Represents, new_skip_list-Represents, insert-Represents, seek-from_key, keys_from,
}

add_all : List ℕ → SkipList ℕ → Option (SkipList ℕ)
add_all [] s = some s
add_all (k ∷ ks) s = elim (insert compare k s) [ none ↦ none | some s' ↦ add_all ks s' ]

walk : ℕ → SkipList ℕ → Ptr → List ℕ
walk zero s p = []
walk (suc n) s none = []
walk (suc n) s (some x) = key_of s x ∷ walk n s (next_of s x 0)

abbrev three : Option (List ℕ)
three =
    Option.map (λ s. walk 9 s (seek_to_first s))
      (add_all (5 ∷ 2 ∷ 9 ∷ 7 ∷ 1 ∷ []) (new_skip_list 0))

inserted_in_order : three ≡ some (1 ∷ 2 ∷ 5 ∷ 7 ∷ 9 ∷ [])
unfolding add_all walk insert new_skip_list squirrel.SkipList.find_greater_or_equal
    squirrel.SkipList.search_from_head squirrel.SkipList.search_round
    squirrel.SkipList.key_is_after_node next_of squirrel.SkipList.insert_after
    squirrel.SkipList.link_levels squirrel.SkipList.random_height squirrel.Random.next
    squirrel.Random.new_random squirrel.SkipList.link_level squirrel.SkipList.set_next
    squirrel.SkipList.new_node squirrel.SkipList.fill_prev key_of seek_to_first
inserted_in_order = refl

number-IsOrder : IsOrder compare
number-IsOrder = record {
  lt_flip = λ a b h. ground arith;
  gt_flip = λ a b h. ground arith;
  le_trans = λ a b c h g. ground arith;
}

abbrev empty : SkipList ℕ
empty = new_skip_list 0

empty-Represents : Represents compare empty []
empty-Represents = new_skip_list-Represents compare 0

one_key : (s : SkipList ℕ) × (insert compare 5 empty ≡ some s) × Represents compare s (5 ∷ [])
unfolding has_equal insert_sorted
one_key = insert-Represents compare number-IsOrder 5 empty [] empty-Represents refl

insert-Represents_example :
    (s : SkipList ℕ) × (insert compare 3 one_key.0 ≡ some s)
    × Represents compare s (insert_sorted compare 3 (5 ∷ []))
insert-Represents_example =
    insert-Represents compare number-IsOrder 3 one_key.0 (5 ∷ []) one_key.2
      (unfold has_equal in refl)

seek-from_key_example :
    (p : Ptr) × (seek compare 4 one_key.0 ≡ some p)
    × (keys_from (one_key.0).count one_key.0 p ≡ from_key compare 4 (5 ∷ []))
seek-from_key_example = seek-from_key compare number-IsOrder 4 one_key.0 (5 ∷ []) one_key.2
