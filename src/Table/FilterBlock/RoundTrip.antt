-- ===== src/Table/FilterBlock/RoundTrip.antt =====
-- The reader of a filter block looks up a key in the filter that the builder made of its keys.
use native.Mathlib.Nat.{mod-eq_of_lt}
use squirrel.Prelude.{ℕ, suc, ◌-◌, ◌/◌, ◌%◌, ◌^◌, ◌<◌, ◌≡◌, refl, sym, ap, ◌∙◌, arith}
use squirrel.Prelude.{
  List, [], ◌∷◌, ◌++◌, All, append_assoc, length, length-append, get_or, take, drop,
  drop-length_append, take-of_le,
}
use squirrel.Coding.{put_fixed32}
use squirrel.Bloom.{FilterPolicy}
use squirrel.Table.FilterBlock.{
  FilterBlockBuilder, put_offsets, generate_last, generate_filter, finish, new_filter_block_reader,
  reader_key_may_match, filter_base,
}
use squirrel.Table.FilterBlock.Keys.{
  add_all, behind_filter, generate_filter-add_all, length-add_all_start,
}
use squirrel.Table.FilterBlock.Reader.{
  word, encoded, encoded-append, put_offsets-encoded, contents_of, filter_at,
  key_may_match-contents, All-last,
}

finish-contents :
    (policy : FilterPolicy) (b last : FilterBlockBuilder)
    → generate_last policy b.start b ≡ last
    → length last.result < 2 ^ 32
    → (finish policy b).result ≡ contents_of last.result last.filter_offsets
unfolding finish put_fixed32
finish-contents policy b last e fits =
    let r = last.result in
    let offsets = last.filter_offsets in
    let n = length r in
    let tail = 11 ∷ [] in
    ap
      (λ (l : FilterBlockBuilder).
        (put_offsets l.result l.filter_offsets ++ word (length l.result % 2 ^ 32)) ++ tail)
      e
    ∙ (ap (λ m. (put_offsets r offsets ++ word m) ++ tail) (mod-eq_of_lt fits)
        ∙ (ap (λ x. (x ++ word n) ++ tail) (put_offsets-encoded r offsets)
            ∙ (ap (λ x. x ++ tail)
                  (append_assoc r (encoded offsets) (word n)
                    ∙ ap (λ x. r ++ x) (sym (encoded-append offsets n)))
                ∙ append_assoc r (encoded (offsets ++ (n ∷ []))) tail)))

generate_last-cons :
    (policy : FilterPolicy) (start : List ℕ) (b : FilterBlockBuilder) (m : ℕ)
    → length start ≡ suc m
    → generate_last policy start b ≡ generate_filter policy b
unfolding generate_last
generate_last-cons policy [] b m e = absurd (omega (arith, e))
generate_last-cons policy (s ∷ start) b m e = refl

get_or-before_last :
    (xs : List ℕ) (x y : ℕ) → get_or ((xs ++ (x ∷ [])) ++ (y ∷ [])) (length xs) 0 ≡ x
get_or-before_last [] x y = refl
get_or-before_last (z ∷ xs) x y = get_or-before_last xs x y

get_or-behind :
    (xs : List ℕ) (x y : ℕ) → get_or ((xs ++ (x ∷ [])) ++ (y ∷ [])) (suc (length xs)) 0 ≡ y
get_or-behind [] x y = refl
get_or-behind (z ∷ xs) x y = get_or-behind xs x y

-- Behind any filters, where the policy's filter of the keys that were added last, one at least, is
-- appended to the block as the bytes `g`, and the filters take less than 2^32 bytes with offsets
-- of 32 bits: a reader of the finished block answers for any key and an offset in the last range of
-- 2 KB what the policy answers for that key and `g`.
pub key_may_match-finish :
    (policy : FilterPolicy) (k : List ℕ) (ks : List (List ℕ)) (b : FilterBlockBuilder) (g : List ℕ)
    (block_offset : ℕ) (key : List ℕ)
    → b.keys ≡ []
    → b.start ≡ []
    → policy.create_filter (k ∷ ks) b.result ≡ b.result ++ g
    → All (λ o. o < 2 ^ 32) b.filter_offsets
    → length (b.result ++ g) < 2 ^ 32
    → block_offset / filter_base ≡ length b.filter_offsets
    → reader_key_may_match policy block_offset key
        (new_filter_block_reader (finish policy (add_all (k ∷ ks) b)).result)
      ≡ policy.key_may_match key g
key_may_match-finish policy k ks b g block_offset key no_keys no_start made small fits here =
    let b' = add_all (k ∷ ks) b in
    let n = length b.result in
    let r = b.result ++ g in
    let offsets = b.filter_offsets ++ (n % 2 ^ 32 ∷ []) in
    let i = block_offset / filter_base in
    let sum = length-append b.result g in
    let whole : n % 2 ^ 32 ≡ n = mod-eq_of_lt (omega (arith, fits, sum)) in
    let last : generate_last policy b'.start b' ≡ behind_filter b r =
      generate_last-cons policy b'.start b' (length ks) (length-add_all_start k ks b no_start)
      ∙ (generate_filter-add_all policy k ks b no_keys no_start ∙ ap (behind_filter b) made) in
    let at : get_or (offsets ++ (length r ∷ [])) i 0 ≡ n =
      ap (λ j. get_or (offsets ++ (length r ∷ [])) j 0) here
      ∙ (get_or-before_last b.filter_offsets (n % 2 ^ 32) (length r) ∙ whole) in
    let end : get_or (offsets ++ (length r ∷ [])) (suc i) 0 ≡ length r =
      ap (λ j. get_or (offsets ++ (length r ∷ [])) (suc j) 0) here
      ∙ get_or-behind b.filter_offsets (n % 2 ^ 32) (length r) in
    let all =
      All-last b.filter_offsets (n % 2 ^ 32) (2 ^ 32) small (omega (arith, whole, fits, sum)) in
    let cut : filter_at r offsets i ≡ g =
      ap
        (λ e.
          take (e - get_or (offsets ++ (length r ∷ [])) i 0)
            (drop (get_or (offsets ++ (length r ∷ [])) i 0) r))
        end
      ∙ (ap (λ s. take (length r - s) (drop s r)) at
          ∙ (ap (take (length r - n)) (drop-length_append b.result g)
              ∙ take-of_le (length r - n) g (omega (arith, sum)))) in
    ap (λ c. reader_key_may_match policy block_offset key (new_filter_block_reader c))
      (finish-contents policy b' (behind_filter b r) last fits)
    ∙ (key_may_match-contents r offsets all fits policy block_offset key
          (omega (arith, here, length-append b.filter_offsets (n % 2 ^ 32 ∷ [])))
          (omega (arith, at, end, sum)) (omega (arith, end))
        ∙ ap (policy.key_may_match key) cut)
