-- ===== src/Crc32c/Mask.antt =====
-- Masking loses nothing, and changes every checksum.
use squirrel.Prelude.{ℕ, ◌+◌, ◌*◌, ◌/◌, ◌%◌, ◌^◌, ◌≡◌, arith}
use squirrel.Prelude.Bits.{or_high}
use squirrel.Coding.{IsU32}
use squirrel.Crc32c.{mask, unmask}

mask_sum : (c : ℕ) → IsU32 c → mask c ≡ (c / 2 ^ 15 + c % 2 ^ 15 * 2 ^ 17 + 0xa282ead8) % 2 ^ 32
unfolding mask
mask_sum c h = ground (arith, or_high 17 (c % 2 ^ 15) (c / 2 ^ 15) (omega arith))

unmask_sum :
    (r : ℕ) → IsU32 r → unmask ((r + 0xa282ead8) % 2 ^ 32) ≡ r / 2 ^ 17 + r % 2 ^ 17 * 2 ^ 15
unfolding unmask
unmask_sum r h = ground (arith, or_high 15 (r % 2 ^ 17) (r / 2 ^ 17) (omega arith))

pub mask-IsU32 : (c : ℕ) → IsU32 (mask c)
unfolding mask
mask-IsU32 c = omega arith

-- `Unmask` gives back every checksum that `Mask` masked.
pub unmask-mask : (c : ℕ) → IsU32 c → unmask (mask c) ≡ c
unmask-mask c h =
    rw (mask_sum c h) (omega (arith, unmask_sum (c / 2 ^ 15 + c % 2 ^ 15 * 2 ^ 17) (omega arith)))
