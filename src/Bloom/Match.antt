-- ===== src/Bloom/Match.antt =====
-- A Bloom filter denies no key that went into it.
use squirrel.Prelude.{
  ℕ, zero, suc, ◌+◌, ◌-◌, ◌*◌, ◌/◌, ◌%◌, ◌^◌, ◌≤◌, ◌<◌, ◌≡◌, refl, ap, ◌∙◌, arith,
}
use native.Mathlib.Nat.{mod-lt}
use squirrel.Prelude.{
  bit_and, bit_or, true, false, List, [], ◌∷◌, ◌++◌, All, length, set, replicate, ltb, ◌==◌,
}
use squirrel.Prelude.{get_or-set_self, length-set, length-append, length-replicate}
use squirrel.Prelude.Bits.{bit, bit-or, bit-pow, and-pow_zero, bit-zero, bit-le}
use squirrel.Coding.{byte_at}
use squirrel.Bloom.{new_bloom_filter_policy, bloom_hash, delta_of, add_probes, add_keys}
use squirrel.Bloom.{create_filter, filter_bits, match_probes, key_may_match}

-- The second array has every bit of the first.
abbrev Above : List ℕ → List ℕ → Type 0
Above a b = (i j : ℕ) → bit (byte_at a i) j ≡ 1 → bit (byte_at b i) j ≡ 1

set-Above : (a : List ℕ) (i m : ℕ) → Above a (set a i (bit_or (byte_at a i) m))
set-Above [] i m i' j h = h
set-Above (x ∷ a) zero m zero j h = omega (arith, bit-or j x m, bit-le j x, bit-le j m, h)
set-Above (x ∷ a) zero m (suc i') j h = h
set-Above (x ∷ a) (suc i) m zero j h = h
set-Above (x ∷ a) (suc i) m (suc i') j h = set-Above a i m i' j h

append-Above : (a b : List ℕ) → Above a (a ++ b)
append-Above [] b i j h = absurd (omega (arith, bit-zero j, h))
append-Above (x ∷ a) b zero j h = h
append-Above (x ∷ a) b (suc i) j h = append-Above a b i j h

probes-Above : (k h delta bits : ℕ) (a : List ℕ) → Above a (add_probes k h delta bits a)
unfolding add_probes
probes-Above zero h delta bits a i j e = e
probes-Above (suc k) h delta bits a i j e =
    let at = h % bits / 8 in
    probes-Above k ((h + delta) % 2 ^ 32) delta bits _ i j
      (set-Above a at (2 ^ (h % bits % 8)) i j e)

keys-Above : (k bits : ℕ) (keys : List (List ℕ)) (a : List ℕ) → Above a (add_keys k bits keys a)
unfolding add_keys
keys-Above k bits [] a i j e = e
keys-Above k bits (key ∷ keys) a i j e =
    let h = bloom_hash key in
    keys-Above k bits keys (add_probes k h (delta_of h) bits a) i j
      (probes-Above k h (delta_of h) bits a i j e)

length-add_probes :
    (k h delta bits : ℕ) (a : List ℕ) → length (add_probes k h delta bits a) ≡ length a
unfolding add_probes
length-add_probes zero h delta bits a = refl
length-add_probes (suc k) h delta bits a =
    length-add_probes k ((h + delta) % 2 ^ 32) delta bits _ ∙ length-set a (h % bits / 8) _

length-add_keys :
    (k bits : ℕ) (keys : List (List ℕ)) (a : List ℕ) → length (add_keys k bits keys a) ≡ length a
unfolding add_keys
length-add_keys k bits [] a = refl
length-add_keys k bits (key ∷ keys) a =
    let h = bloom_hash key in
    length-add_keys k bits keys (add_probes k h (delta_of h) bits a)
    ∙ length-add_probes k h (delta_of h) bits a

-- The bit of a probe is set, and is seen in any array that has it.
probe_set :
    (a : List ℕ) (i j : ℕ)
    → i < length a
    → bit (byte_at (set a i (bit_or (byte_at a i) (2 ^ j))) i) j ≡ 1
probe_set a i j h = omega (
  arith,
  ap (λ x. bit x j) (get_or-set_self a i (bit_or (byte_at a i) (2 ^ j)) 0 h),
  bit-or j (byte_at a i) (2 ^ j),
  bit-pow j,
  bit-le j (byte_at a i),
)

probe_seen : (x j : ℕ) → bit x j ≡ 1 → (bit_and x (2 ^ j) == 0) ≡ false
probe_seen x j h = ground (arith, and-pow_zero j x)

match-add_probes :
    (k h delta bits : ℕ) (a b : List ℕ)
    → Above (add_probes k h delta bits a) b
    → 0 < bits
    → bits ≤ length a * 8
    → match_probes k h delta bits b ≡ true
unfolding add_probes match_probes
match-add_probes zero h delta bits a b above pos fits = refl
match-add_probes (suc k) h delta bits a b above pos fits =
    let at = h % bits / 8 in
    let j = h % bits % 8 in
    let a1 = set a at (bit_or (byte_at a at) (2 ^ j)) in
    let h1 = (h + delta) % 2 ^ 32 in
    let small : h % bits < bits = mod-lt h pos in
    let now : bit (byte_at b at) j ≡ 1 =
      above at j (probes-Above k h1 delta bits a1 at j (probe_set a at j (omega arith))) in
    rw (probe_seen (byte_at b at) j now) (
      match-add_probes k h1 delta bits a1 b above pos
        (omega (arith, length-set a at (bit_or (byte_at a at) (2 ^ j)))))

-- The array behind which the filter holds the number of probes.
last_byte : (a : List ℕ) (x : ℕ) → byte_at (a ++ (x ∷ [])) (length a) ≡ x
last_byte [] x = refl
last_byte (y ∷ a) x = last_byte a x

matching :
    (a : List ℕ) (k : ℕ) (key : List ℕ)
    → 0 < length a
    → length a * 8 < 2 ^ 64
    → k ≤ 30
    → key_may_match key (a ++ (k ∷ []))
      ≡ match_probes k (bloom_hash key) (delta_of (bloom_hash key)) (length a * 8) (a ++ (k ∷ []))
unfolding key_may_match
matching a k key some_bytes fits few =
    let h = bloom_hash key in
    let size : length (a ++ (k ∷ [])) ≡ suc (length a) = omega (arith, length-append a (k ∷ [])) in
    let last : suc (length a) - 1 ≡ length a = omega arith in
    let bits : length a * 8 % 2 ^ 64 ≡ length a * 8 = omega arith in
    let long_enough : ltb (suc (length a)) 2 ≡ false = ground arith in
    let byte : ltb k 128 ≡ true = ground arith in
    let used : ltb 30 k ≡ false = ground arith in
    rw (size, last, bits, last_byte a k, long_enough, byte, used) refl

-- Every key that was added is matched in any array that holds what was added.
keys_match :
    (k bits : ℕ) (keys : List (List ℕ)) (a b : List ℕ)
    → Above (add_keys k bits keys a) b
    → 0 < bits
    → bits ≤ length a * 8
    → All (λ key. match_probes k (bloom_hash key) (delta_of (bloom_hash key)) bits b ≡ true) keys
unfolding add_keys
keys_match k bits [] a b above pos fits = tt
keys_match k bits (key ∷ keys) a b above pos fits =
    let h = bloom_hash key in
    let a1 = add_probes k h (delta_of h) bits a in
    (
      match-add_probes k h (delta_of h) bits a b
          (λ i j e. above i j (keys-Above k bits keys a1 i j e)) pos fits,
      keys_match k bits keys a1 b above pos
          (omega (arith, length-add_probes k h (delta_of h) bits a)),
    )

All-of :
    {P Q : List ℕ → Type 0} (xs : List (List ℕ)) → ((x : List ℕ) → P x → Q x) → All P xs → All Q xs
All-of [] f h = tt
All-of (x ∷ xs) f h = (f x h.0, All-of xs f h.1)

few_probes : (b : ℕ) → (new_bloom_filter_policy b).k ≤ 30
unfolding new_bloom_filter_policy
few_probes b = ground arith

filter_size :
    (b n : ℕ)
    → n * b + 7 < 2 ^ 64
    → let f = filter_bits (new_bloom_filter_policy b) n in (64 ≤ f) × (f + 7 < 2 ^ 64)
unfolding new_bloom_filter_policy
filter_size b n h = ground arith

-- `CreateFilter` of the Bloom filter with any number of bits per key appends a filter to `dst`, and
-- `KeyMayMatch` returns true on this filter for every key it was made of, if the number of bits
-- fits in a size_t.
pub create_filter-matches :
    (bits_per_key : ℕ) (keys : List (List ℕ)) (dst : List ℕ)
    → length keys * bits_per_key + 7 < 2 ^ 64
    → let p = new_bloom_filter_policy bits_per_key in
      (create_filter p keys dst ≡ dst ++ create_filter p keys [])
      × All (λ key. key_may_match key (create_filter p keys []) ≡ true) keys
unfolding create_filter
create_filter-matches bits_per_key keys dst fits = (refl, all)
  where
    k : ℕ
    k = (new_bloom_filter_policy bits_per_key).k

    n : ℕ
    n = (filter_bits (new_bloom_filter_policy bits_per_key) (length keys) + 7) % 2 ^ 64 / 8

    bits : ℕ
    bits = n * 8 % 2 ^ 64

    array : List ℕ
    array = add_keys k bits keys (replicate n 0)

    size : length array ≡ n
    size = length-add_keys k bits keys (replicate n 0) ∙ length-replicate {A = ℕ} n 0

    bounds : (0 < n) × (n * 8 < 2 ^ 64)
    bounds = omega (arith, filter_size bits_per_key (length keys) fits)

    wraps : length array * 8 ≡ bits
    wraps = omega (arith, size, bounds)

    matched :
        All
          (λ key.
            match_probes k (bloom_hash key) (delta_of (bloom_hash key)) bits (array ++ (k ∷ []))
            ≡ true)
          keys
    matched =
        keys_match k bits keys (replicate n 0) (array ++ (k ∷ [])) (append-Above array (k ∷ []))
          (omega (arith, bounds)) (omega (arith, bounds, length-replicate {A = ℕ} n 0))

    all : All (λ key. key_may_match key (array ++ (k ∷ [])) ≡ true) keys
    all =
        All-of keys
          (λ key h.
            matching array k key (omega (arith, size, bounds)) (omega (arith, size, bounds))
              (few_probes bits_per_key)
            ∙ rw wraps h)
          matched
