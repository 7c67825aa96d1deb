-- ===== src/Table/FilterBlock/Runs.antt =====
-- Runs of the filter block.
use squirrel.Prelude.{
  ℕ, ◌/◌, ◌≡◌, refl, arith, List, [], ◌∷◌, ◌++◌, length, codes, true, false, Bool, ◌==◌,
  if◌then◌else◌,
}
use squirrel.Bloom.{FilterPolicy}
use squirrel.Table.FilterBlock.{
  FilterBlockBuilder, start_block, finish, filter_base, add_key, new_filter_block_reader,
  reader_key_may_match,
}
use squirrel.Table.FilterBlock.RoundTrip.{key_may_match-finish}
use squirrel.Table.FilterBlock.Keys.{add_all, length-start_block}

-- A policy whose filter has the lengths of the keys.
abbrev lengths : List (List ℕ) → List ℕ
lengths [] = []
lengths (k ∷ ks) = length k ∷ lengths ks

abbrev has : ℕ → List ℕ → Bool
has n [] = false
has n (m ∷ ms) = if n == m then true else has n ms

abbrev sizes : FilterPolicy
sizes = record {
  create_filter = λ keys dst. dst ++ lengths keys;
  key_may_match = λ key bytes. has (length key) bytes;
}

-- A builder behind the filters of two ranges.
abbrev two_filters : FilterBlockBuilder
two_filters = record { keys = []; start = []; result = 5 ∷ 6 ∷ []; filter_offsets = 0 ∷ 1 ∷ [] }

key_may_match-finish_example :
    reader_key_may_match sizes 5000 (codes "c") (
      new_filter_block_reader
        (finish sizes (add_all (codes "ab" ∷ codes "" ∷ codes "c" ∷ []) two_filters)).result)
    ≡ sizes.key_may_match (codes "c") (2 ∷ 0 ∷ 1 ∷ [])
key_may_match-finish_example =
    key_may_match-finish sizes (codes "ab") (codes "" ∷ codes "c" ∷ []) two_filters (2 ∷ 0 ∷ 1 ∷ [])
      5000 (codes "c") refl refl refl (omega arith, (omega arith, tt)) (omega arith) (omega arith)

length-start_block_example :
    length (start_block sizes 10000 (add_all (codes "ab" ∷ []) two_filters)).filter_offsets
    ≡ 10000 / filter_base
length-start_block_example =
    length-start_block sizes 10000 (add_all (codes "ab" ∷ []) two_filters)
      (unfold add_key in omega arith)
