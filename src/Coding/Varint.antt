-- ===== src/Coding/Varint.antt =====
-- What the varint encoders write: groups of seven bits, the lowest first.
use mathlib.Core.WellFounded.{Acc}
use native.Mathlib.Nat.{pow-suc}
use squirrel.Prelude.{ℕ, zero, suc, ◌+◌, ◌/◌, ◌%◌, ◌^◌, ◌≤◌, ◌<◌, ◌≡◌, refl, sym, ◌∙◌, arith}
use squirrel.Prelude.{List, [], ◌∷◌, length, All, ltb, if◌then◌else◌, bit_or, bit_and, lt_wf}
use squirrel.Prelude.Bits.{and_127, or_128}
use squirrel.Coding.{IsByte, IsU32, IsU64}
use squirrel.Coding.{encode_varint32, encode_varint64_loop, encode_varint64}
use squirrel.Coding.{varint_length_loop, varint_length}

-- `v` in at most `k + 1` groups, for `v` below 128 ^ (k + 1).
unfoldable pub base128 : ℕ → ℕ → List ℕ
base128 zero v = v ∷ []
base128 (suc k) v = if ltb v 128 then v ∷ [] else (v % 128 + 128) ∷ base128 k (v / 128)

pub base128-IsByte : (k v : ℕ) → v < 128 ^ suc k → All IsByte (base128 k v)
unfolding base128
base128-IsByte zero v h = omega arith
base128-IsByte (suc k) v h =
    ground (arith, base128-IsByte k (v / 128) (omega (arith, pow-suc 128 (suc k))))

pub length-base128 : (k v : ℕ) → (1 ≤ length (base128 k v)) × (length (base128 k v) ≤ k + 1)
unfolding base128
length-base128 zero v = omega arith
length-base128 (suc k) v = ground (arith, length-base128 k (v / 128))

flagged_group : (v : ℕ) → bit_or v 128 % 256 ≡ v % 128 + 128
flagged_group v = omega (arith, or_128 v)

masked_group : (v : ℕ) → bit_or (bit_and v 127) 128 % 256 ≡ v % 128 + 128
masked_group v = rw (and_127 v) (omega (arith, or_128 (v % 128)))

pub encode_varint32-base128 : (v : ℕ) → IsU32 v → encode_varint32 v ≡ base128 4 v
unfolding encode_varint32 base128
encode_varint32-base128 v h = ground (
  arith,
  flagged_group v,
  flagged_group (v / 2 ^ 7),
  flagged_group (v / 2 ^ 14),
  flagged_group (v / 2 ^ 21),
)

loop-base128 : (k v : ℕ) (w : Acc ◌<◌ v) → v < 128 ^ suc k → encode_varint64_loop v w ≡ base128 k v
unfolding encode_varint64_loop base128
loop-base128 zero v (Acc.intro _ smaller) h = ground arith
loop-base128 (suc k) v (Acc.intro _ smaller) h = grind (
  arith,
  masked_group v,
  λ (w : Acc ◌<◌ (v / 2 ^ 7)). loop-base128 k (v / 2 ^ 7) w (omega (arith, pow-suc 128 (suc k))),
)

pub encode_varint64-base128 : (v : ℕ) → IsU64 v → encode_varint64 v ≡ base128 9 v
unfolding encode_varint64
encode_varint64-base128 v h = loop-base128 9 v (lt_wf.apply v) (omega arith)

length_loop-base128 :
    (k v len : ℕ) (w : Acc ◌<◌ v)
    → v < 128 ^ suc k
    → varint_length_loop v len w + 1 ≡ len + length (base128 k v)
unfolding varint_length_loop base128
length_loop-base128 zero v len (Acc.intro _ smaller) h = ground arith
length_loop-base128 (suc k) v len (Acc.intro _ smaller) h = grind (
  arith,
  λ (w : Acc ◌<◌ (v / 2 ^ 7)).
      length_loop-base128 k (v / 2 ^ 7) (len + 1) w (omega (arith, pow-suc 128 (suc k))),
)

varint_length-base128 : (v : ℕ) → IsU64 v → varint_length v ≡ length (base128 9 v)
unfolding varint_length
varint_length-base128 v h = omega (arith, length_loop-base128 9 v 1 (lt_wf.apply v) (omega arith))

base128_more : (k v : ℕ) → v < 128 ^ suc k → base128 (suc k) v ≡ base128 k v
unfolding base128
base128_more zero v h = ground arith
base128_more (suc k) v h =
    ground (arith, base128_more k (v / 128) (omega (arith, pow-suc 128 (suc k))))

-- For every uint64_t, `VarintLength` is the number of bytes that `EncodeVarint64` writes: from 1
-- to 10, and each is a byte.
pub length-encode_varint64 :
    (v : ℕ)
    → IsU64 v
    → (length (encode_varint64 v) ≡ varint_length v)
      × (1 ≤ varint_length v)
      × (varint_length v ≤ 10)
      × All IsByte (encode_varint64 v)
length-encode_varint64 v h =
    rw (encode_varint64-base128 v h, varint_length-base128 v h)
      (refl, (length-base128 9 v).0, (length-base128 9 v).1, base128-IsByte 9 v (omega arith))

-- On every uint32_t the unrolled `EncodeVarint32` writes what the loop of `EncodeVarint64` writes.
pub encode_varint32-eq-encode_varint64 : (v : ℕ) → IsU32 v → encode_varint32 v ≡ encode_varint64 v
encode_varint32-eq-encode_varint64 v h =
    rw (encode_varint32-base128 v h, encode_varint64-base128 v (omega arith))
      (sym (
        base128_more 8 v (omega arith)
        ∙ base128_more 7 v (omega arith)
        ∙ base128_more 6 v (omega arith)
        ∙ base128_more 5 v (omega arith)
        ∙ base128_more 4 v (omega arith)))
