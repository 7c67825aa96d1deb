-- ===== src/Bloom.antt =====
-- include/leveldb/filter_policy.h and util/bloom.cpp: filter policies, and the Bloom filter.
pub mod Match
mod Runs
use squirrel.Prelude.{
  ℕ, zero, suc, ◌+◌, ◌-◌, ◌*◌, ◌/◌, ◌%◌, ◌^◌, ◌≡◌, bit_and, bit_or, Bool, true, false, ◌&&◌, not,
}
use squirrel.Prelude.{List, [], ◌∷◌, ◌++◌, All, length, set, replicate, ltb, ◌==◌, if◌then◌else◌}
use squirrel.Coding.{byte_at}
use squirrel.Hash.{hash}

-- A `FilterPolicy`. `CreateFilter` returns the string it appends to.
pub record FilterPolicy : Type 0 where
  pub create_filter : List (List ℕ) → List ℕ → List ℕ
  pub key_may_match : List ℕ → List ℕ → Bool

unfoldable pub bloom_hash : List ℕ → ℕ
bloom_hash key = hash key 0xbc9f1d34

-- `(h >> 17) | (h << 15)`
unfoldable pub delta_of : ℕ → ℕ
delta_of h = bit_or (h / 2 ^ 17) (h * 2 ^ 15 % 2 ^ 32)

pub record BloomFilterPolicy : Type 0 where
  pub bits_per_key : ℕ
  pub k : ℕ

-- Below the bound of 30, `bits_per_key * 0.69` rounds down as this quotient does.
unfoldable pub new_bloom_filter_policy : ℕ → BloomFilterPolicy
new_bloom_filter_policy bits_per_key =
    let k = bits_per_key * 69 / 100 in
    record { bits_per_key = bits_per_key; k = if ltb k 1 then 1 else if ltb 30 k then 30 else k }

-- The loop over the probes of a key: the bits at `h`, `h + delta` and so on are set.
unfoldable pub add_probes : ℕ → ℕ → ℕ → ℕ → List ℕ → List ℕ
add_probes zero h delta bits array = array
add_probes (suc j) h delta bits array =
    let bitpos = h % bits in
    add_probes j ((h + delta) % 2 ^ 32) delta bits
      (set array (bitpos / 8) (bit_or (byte_at array (bitpos / 8)) (2 ^ (bitpos % 8))))

-- The loop over the keys.
unfoldable pub add_keys : ℕ → ℕ → List (List ℕ) → List ℕ → List ℕ
add_keys k bits [] array = array
add_keys k bits (key ∷ keys) array =
    let h = bloom_hash key in add_keys k bits keys (add_probes k h (delta_of h) bits array)

abbrev pub filter_bits : BloomFilterPolicy → ℕ → ℕ
filter_bits p n = let bits = n * p.bits_per_key % 2 ^ 64 in if ltb bits 64 then 64 else bits

unfoldable pub create_filter : BloomFilterPolicy → List (List ℕ) → List ℕ → List ℕ
create_filter p keys dst =
    let bytes = (filter_bits p (length keys) + 7) % 2 ^ 64 / 8 in
    let bits = bytes * 8 % 2 ^ 64 in
    dst ++ (add_keys p.k bits keys (replicate bytes 0) ++ (p.k ∷ []))

unfoldable pub match_probes : ℕ → ℕ → ℕ → ℕ → List ℕ → Bool
match_probes zero h delta bits array = true
match_probes (suc j) h delta bits array =
    let bitpos = h % bits in
    let rest = match_probes j ((h + delta) % 2 ^ 32) delta bits array in
    if bit_and (byte_at array (bitpos / 8)) (2 ^ (bitpos % 8)) == 0 then false else rest

-- `const size_t k = array[len - 1]`, where char is signed.
abbrev size_of_char : ℕ → ℕ
size_of_char b = if ltb b 128 then b else b + 2 ^ 64 - 256

unfoldable pub key_may_match : List ℕ → List ℕ → Bool
key_may_match key bloom_filter =
    let len = length bloom_filter in
    let bits = (len - 1) * 8 % 2 ^ 64 in
    let k = size_of_char (byte_at bloom_filter (len - 1)) in
    let h = bloom_hash key in
    let probed = match_probes k h (delta_of h) bits bloom_filter in
    if ltb len 2 then false else if ltb 30 k then true else probed

abbrev pub bloom_filter_policy : BloomFilterPolicy → FilterPolicy
bloom_filter_policy p = record { create_filter = create_filter p; key_may_match = key_may_match }
