-- ===== src/Table/Merger/Runs.antt =====
-- Runs of the merging iterator, over lists of keys.
use squirrel.Prelude.{◌⊎◌, ℕ, ◌≡◌, refl, Bool, true, false, none, some, List, [], ◌∷◌, All, codes}
use squirrel.Status.{ok}
use squirrel.Comparator.{bytewise_comparator}
use squirrel.Comparator.Bytewise.{bytewise-IsComparator}
use squirrel.Slice.{slice_compare}
use squirrel.Table.Merger.{MergingIterator, Iterator, find_smallest}
use squirrel.Table.Merger.Smallest.{Invalid, IsFirstSmallest, find_smallest-IsFirstSmallest}

abbrev first_key : List (List ℕ) → List ℕ
first_key [] = []
first_key (k ∷ ks) = k

abbrev tail_of : List (List ℕ) → List (List ℕ)
tail_of [] = []
tail_of (k ∷ ks) = ks

abbrev is_left : List (List ℕ) → Bool
is_left [] = false
is_left (k ∷ ks) = true

-- The keys from the current one on; the iterator cannot go back.
abbrev keys_left : Iterator (List (List ℕ))
keys_left = record {
  valid = is_left;
  key = first_key;
  value = first_key;
  status = λ ks. ok;
  seek_to_first = λ ks. ks;
  seek_to_last = λ ks. ks;
  seek = λ target ks. ks;
  next = tail_of;
  prev = λ ks. ks;
}

abbrev three : List (List (List ℕ))
three = (codes "b" ∷ []) ∷ [] ∷ (codes "a" ∷ codes "c" ∷ []) ∷ []

abbrev at_three : MergingIterator (List (List ℕ))
at_three = record { children = three; current = none; forward = true }

find_smallest-IsFirstSmallest_example :
    let m' = find_smallest keys_left bytewise_comparator at_three in
    (m'.children ≡ three)
    × (((m'.current ≡ none) × All (Invalid keys_left bytewise_comparator) three)
        ⊎ ((i : ℕ) × (c : List (List ℕ)) × (m'.current ≡ some i)
            × IsFirstSmallest keys_left bytewise_comparator i c three))
find_smallest-IsFirstSmallest_example =
    find_smallest-IsFirstSmallest keys_left bytewise_comparator bytewise-IsComparator at_three

finds_the_third :
    (find_smallest keys_left bytewise_comparator
      (record { children = three; current = none; forward = true })).current
    ≡ some 2
unfolding find_smallest slice_compare
finds_the_third = refl
