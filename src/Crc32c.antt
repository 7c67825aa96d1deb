-- ===== src/Crc32c.antt =====
-- util/crc32c.h: masked checksums, and the contract of `Extend`. The tables of util/crc32c.cpp are
-- not modelled: the clients take `Extend` as a `Crc`.
pub mod Mask
mod Runs
use squirrel.Prelude.{ℕ, ◌+◌, ◌-◌, ◌*◌, ◌/◌, ◌%◌, ◌^◌, ◌<◌, ◌≡◌, bit_or, List, ◌++◌}
use squirrel.Coding.{IsU32}

-- `Extend` and what crc32c.h says of it: the crc of a string, extended by more data, is the crc of
-- both in a row.
pub record Crc : Type 0 where
  pub extend : ℕ → List ℕ → ℕ
  pub extend-append : (a b : List ℕ) → extend (extend 0 a) b ≡ extend 0 (a ++ b)
  pub extend-IsU32 : (crc : ℕ) (a : List ℕ) → IsU32 (extend crc a)

abbrev pub value : Crc → List ℕ → ℕ
value c a = c.extend 0 a

abbrev mask_delta : ℕ
mask_delta = 0xa282ead8

unfoldable pub mask : ℕ → ℕ
mask crc = (bit_or (crc / 2 ^ 15) (crc * 2 ^ 17 % 2 ^ 32) + mask_delta) % 2 ^ 32

unfoldable pub unmask : ℕ → ℕ
unmask masked_crc =
    let rot = (masked_crc + 2 ^ 32 - mask_delta) % 2 ^ 32 in
    bit_or (rot / 2 ^ 17) (rot * 2 ^ 15 % 2 ^ 32)
