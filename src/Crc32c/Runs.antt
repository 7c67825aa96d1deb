-- ===== src/Crc32c/Runs.antt =====
-- Runs of masked checksums.
use squirrel.Prelude.{◌≡◌, refl, arith}
use squirrel.Crc32c.{mask, unmask}
use squirrel.Crc32c.Mask.{unmask-mask}

mask_of_bits : mask 0x12345678 ≡ 0x4f730f40
unfolding mask
mask_of_bits = refl

unmask-mask_example : unmask (mask 0x12345678) ≡ 0x12345678
unmask-mask_example = unmask-mask 0x12345678 (omega arith)
