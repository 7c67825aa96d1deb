-- ===== src/Hash.antt =====
-- util/hash.h and util/hash.cpp.
use squirrel.Prelude.{ℕ, ◌+◌, ◌*◌, ◌/◌, ◌%◌, ◌^◌, bit_xor, List, [], ◌∷◌, length}
use squirrel.Coding.{little_endian, decode_fixed32}

abbrev multiplier : ℕ
multiplier = 0xc6a4a793

-- `h *= m; h ^= (h >> bits);`
unfoldable pub stir : ℕ → ℕ → ℕ
stir h bits = let p = h * multiplier % 2 ^ 32 in bit_xor p (p / 2 ^ bits)

-- The loop over four bytes at a time, then the switch on what remains.
unfoldable pub hash_from : ℕ → List ℕ → ℕ
hash_from h (b0 ∷ b1 ∷ b2 ∷ b3 ∷ rest) =
    hash_from (stir ((h + decode_fixed32 little_endian (b0 ∷ b1 ∷ b2 ∷ b3 ∷ rest)) % 2 ^ 32) 16)
      rest
hash_from h (b0 ∷ b1 ∷ b2 ∷ []) =
    stir ((((h + b2 * 2 ^ 16) % 2 ^ 32 + b1 * 2 ^ 8) % 2 ^ 32 + b0) % 2 ^ 32) 24
hash_from h (b0 ∷ b1 ∷ []) = stir (((h + b1 * 2 ^ 8) % 2 ^ 32 + b0) % 2 ^ 32) 24
hash_from h (b0 ∷ []) = stir ((h + b0) % 2 ^ 32) 24
hash_from h [] = h

-- `n * m` is a size_t, and `h` takes its low 32 bits.
unfoldable pub hash : List ℕ → ℕ → ℕ
hash data_ seed = hash_from (bit_xor seed (length data_ * multiplier % 2 ^ 64) % 2 ^ 32) data_
