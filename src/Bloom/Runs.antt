-- ===== src/Bloom/Runs.antt =====
-- Runs of the Bloom filter.
use squirrel.Prelude.{ℕ, ◌≡◌, refl, arith, true, false, List, [], ◌∷◌, ◌++◌, All, codes}
use squirrel.Coding.{decode_fixed32, native_value}
use squirrel.Hash.{hash, hash_from, stir}
use squirrel.Bloom.{
  new_bloom_filter_policy, create_filter, key_may_match, bloom_hash, delta_of, add_keys, add_probes,
  match_probes,
}
use squirrel.Bloom.Match.{create_filter-matches}

-- util/hash_test.cpp
hash_of_bytes : hash (0xe1 ∷ 0x80 ∷ 0xb9 ∷ 0x32 ∷ []) 0xbc9f1d34 ≡ 0xed21633a
unfolding hash hash_from stir decode_fixed32 native_value
hash_of_bytes = refl

abbrev words : List (List ℕ)
words = codes "hello" ∷ codes "world" ∷ []

denied : key_may_match (codes "x") (create_filter (new_bloom_filter_policy 10) words []) ≡ false
unfolding key_may_match create_filter new_bloom_filter_policy bloom_hash delta_of add_keys
    add_probes match_probes hash hash_from stir decode_fixed32 native_value
denied = refl

create_filter-matches_example :
    (create_filter (new_bloom_filter_policy 10) words (7 ∷ [])
      ≡ (7 ∷ []) ++ create_filter (new_bloom_filter_policy 10) words [])
    × All
        (λ key. key_may_match key (create_filter (new_bloom_filter_policy 10) words []) ≡ true)
        words
create_filter-matches_example = create_filter-matches 10 words (7 ∷ []) (omega arith)
