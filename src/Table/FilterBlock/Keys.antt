-- ===== src/Table/FilterBlock/Keys.antt =====
-- The keys that a filter is made of.
use squirrel.Prelude.{
  ℕ, zero, suc, ◌+◌, ◌-◌, ◌/◌, ◌%◌, ◌^◌, ◌≤◌, ◌<◌, ◌≡◌, refl, sym, ap, ◌∙◌, arith, inl, inr,
  Bool-cases,
}
use squirrel.Prelude.{
  List, [], ◌∷◌, ◌++◌, append_assoc, append-nil, length, length-append, take, drop, ltb,
  take-length_append, drop-length_append,
}
use squirrel.Bloom.{FilterPolicy}
use squirrel.Table.FilterBlock.{
  FilterBlockBuilder, add_key, tmp_keys, filter_from, generate_filter, start_loop, start_block,
  filter_base,
}

abbrev pub add_all : List (List ℕ) → FilterBlockBuilder → FilterBlockBuilder
add_all [] b = b
add_all (k ∷ ks) b = add_all ks (add_key k b)

abbrev flatten : List (List ℕ) → List ℕ
flatten [] = []
flatten (k ∷ ks) = k ++ flatten ks

-- Where the keys start behind `n` bytes, and where the last one ends.
abbrev starts : ℕ → List (List ℕ) → List ℕ
starts n [] = n ∷ []
starts n (k ∷ ks) = n ∷ starts (n + length k) ks

tmp_keys-cons :
    (keys : List ℕ) (s m : ℕ) (ks : List (List ℕ))
    → tmp_keys keys (s ∷ starts m ks) ≡ take (m - s) (drop s keys) ∷ tmp_keys keys (starts m ks)
unfolding tmp_keys
tmp_keys-cons keys s m [] = refl
tmp_keys-cons keys s m (k ∷ ks) = refl

tmp_keys-starts :
    (pre : List ℕ) (ks : List (List ℕ)) → tmp_keys (pre ++ flatten ks) (starts (length pre) ks) ≡ ks
tmp_keys-starts pre [] = unfold tmp_keys in refl
tmp_keys-starts pre (k ∷ ks) =
    let n = length pre in
    let rest = flatten ks in
    let width : n + length k - n ≡ length k = omega arith in
    let cut : take (n + length k - n) (drop n (pre ++ (k ++ rest))) ≡ k =
      rw (drop-length_append pre (k ++ rest), width) (take-length_append k rest) in
    let further : tmp_keys (pre ++ (k ++ rest)) (starts (n + length k) ks) ≡ ks =
      rw (sym (append_assoc pre k rest), sym (length-append pre k))
        (tmp_keys-starts (pre ++ k) ks) in
    tmp_keys-cons (pre ++ (k ++ rest)) n (n + length k) ks
    ∙ (ap (λ x. x ∷ tmp_keys (pre ++ (k ++ rest)) (starts (n + length k) ks)) cut
        ∙ ap (λ t. k ∷ t) further)

-- What the builder holds once keys have been added.
record IsAdded (ks : List (List ℕ)) (b after : FilterBlockBuilder) : Type 0 where
  start : after.start ++ (length after.keys ∷ []) ≡ b.start ++ starts (length b.keys) ks
  keys : after.keys ≡ b.keys ++ flatten ks
  result : after.result ≡ b.result
  offsets : after.filter_offsets ≡ b.filter_offsets

add_all-IsAdded : (ks : List (List ℕ)) (b : FilterBlockBuilder) → IsAdded ks b (add_all ks b)
add_all-IsAdded [] b = record {
  start = refl;
  keys = sym (append-nil b.keys);
  result = refl;
  offsets = refl;
}
add_all-IsAdded (k ∷ ks) b =
    let r = add_all-IsAdded ks (add_key k b) in
    record {
      start =
          r.start
          ∙ unfold add_key in
            append_assoc b.start (length b.keys ∷ []) (starts (length (b.keys ++ k)) ks)
            ∙ ap (λ n. b.start ++ (length b.keys ∷ starts n ks)) (length-append b.keys k);
      keys = r.keys ∙ unfold add_key in append_assoc b.keys k (flatten ks);
      result = r.result ∙ unfold add_key in refl;
      offsets = r.offsets ∙ unfold add_key in refl;
    }

length-starts : (n : ℕ) (ks : List (List ℕ)) → length (starts n ks) ≡ suc (length ks)
length-starts n [] = refl
length-starts n (k ∷ ks) = ap suc (length-starts (n + length k) ks)

-- A builder behind its filter `dst`, with the offset of that filter.
abbrev pub behind_filter : FilterBlockBuilder → List ℕ → FilterBlockBuilder
behind_filter b dst = record {
  keys = [];
  start = [];
  result = dst;
  filter_offsets = b.filter_offsets ++ (length b.result % 2 ^ 32 ∷ []);
}

filter_from-cons :
    (policy : FilterPolicy) (start : List ℕ) (b : FilterBlockBuilder) (m : ℕ)
    → length start ≡ suc m
    → filter_from policy start b
      ≡ behind_filter b
          (policy.create_filter (tmp_keys b.keys (start ++ (length b.keys ∷ []))) b.result)
filter_from-cons policy [] b m e = absurd (omega (arith, e))
filter_from-cons policy (s ∷ start) b m e = unfold filter_from in refl

pub length-add_all_start :
    (k : List ℕ) (ks : List (List ℕ)) (b : FilterBlockBuilder)
    → b.start ≡ []
    → length (add_all (k ∷ ks) b).start ≡ suc (length ks)
length-add_all_start k ks b no_start =
    let b' = add_all (k ∷ ks) b in
    let at =
      (add_all-IsAdded (k ∷ ks) b).start
      ∙ ap (λ x. x ++ starts (length b.keys) (k ∷ ks)) no_start in
    omega (
      arith,
      length-append b'.start (length b'.keys ∷ []),
      ap length at,
      length-starts (length b.keys) (k ∷ ks),
    )

-- The filter that `GenerateFilter` appends to the block is the policy's filter of the keys that were
-- added since the last one, in their order, for one key at least; its offset is added to the
-- others, and the builder has no keys afterwards.
pub generate_filter-add_all :
    (policy : FilterPolicy) (k : List ℕ) (ks : List (List ℕ)) (b : FilterBlockBuilder)
    → b.keys ≡ []
    → b.start ≡ []
    → generate_filter policy (add_all (k ∷ ks) b)
      ≡ behind_filter b (policy.create_filter (k ∷ ks) b.result)
unfolding generate_filter
generate_filter-add_all policy k ks b no_keys no_start =
    let all = k ∷ ks in
    let b' = add_all all b in
    let r = add_all-IsAdded all b in
    let at : b'.start ++ (length b'.keys ∷ []) ≡ starts 0 all =
      r.start ∙ rw (no_start, no_keys) refl in
    let held : b'.keys ≡ flatten all = r.keys ∙ ap (λ x. x ++ flatten all) no_keys in
    let size : length b'.start ≡ suc (length ks) = length-add_all_start k ks b no_start in
    let cut : tmp_keys b'.keys (b'.start ++ (length b'.keys ∷ [])) ≡ all =
      ap (tmp_keys b'.keys) at
      ∙ (ap (λ x. tmp_keys x (starts 0 all)) held ∙ tmp_keys-starts [] all) in
    filter_from-cons policy b'.start b' (length ks) size ∙ rw (cut, r.result, r.offsets) refl

length-filter_from :
    (policy : FilterPolicy) (start : List ℕ) (b : FilterBlockBuilder)
    → length (filter_from policy start b).filter_offsets ≡ suc (length b.filter_offsets)
unfolding filter_from
length-filter_from policy [] b =
    omega (arith, length-append b.filter_offsets (length b.result % 2 ^ 32 ∷ []))
length-filter_from policy (s ∷ start) b =
    omega (arith, length-append b.filter_offsets (length b.result % 2 ^ 32 ∷ []))

length-generate_filter :
    (policy : FilterPolicy) (b : FilterBlockBuilder)
    → length (generate_filter policy b).filter_offsets ≡ suc (length b.filter_offsets)
unfolding generate_filter
length-generate_filter policy b = length-filter_from policy b.start b

length-start_loop :
    (policy : FilterPolicy) (fuel filter_index : ℕ) (b : FilterBlockBuilder)
    → length b.filter_offsets ≤ filter_index
    → filter_index ≤ fuel + length b.filter_offsets
    → length (start_loop policy fuel filter_index b).filter_offsets ≡ filter_index
unfolding start_loop
length-start_loop policy zero filter_index b few enough = omega (arith, few, enough)
length-start_loop policy (suc fuel) filter_index b few enough =
    elim (Bool-cases (ltb (length b.filter_offsets) filter_index)) [
      | inl less ↦
          let lt : length b.filter_offsets < filter_index = ground arith in
          rw less (
            length-start_loop policy fuel filter_index (generate_filter policy b)
              (omega (arith, lt, length-generate_filter policy b))
              (omega (arith, enough, length-generate_filter policy b)))
      | inr done ↦ rw done (ground arith)
    ]

-- `StartBlock` always ends, and leaves as many filters as there are whole ranges of 2 KB before
-- the block, where there are not more before, as is asserted.
pub length-start_block :
    (policy : FilterPolicy) (block_offset : ℕ) (b : FilterBlockBuilder)
    → length b.filter_offsets ≤ block_offset / filter_base
    → length (start_block policy block_offset b).filter_offsets ≡ block_offset / filter_base
unfolding start_block
length-start_block policy block_offset b few =
    length-start_loop policy (block_offset / filter_base) (block_offset / filter_base) b few
      (omega arith)
