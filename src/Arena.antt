-- ===== src/Arena.antt =====
-- util/arena.h and util/arena.cpp. An address is a number, and nullptr is 0. Where an operation
-- may ask for a new block, it takes the address that `new char[]` would return as `fresh`.
pub mod Regions
pub mod Invariant
mod Runs
use squirrel.Prelude.{
  ℕ, ◌+◌, ◌-◌, ◌*◌, ◌/◌, ◌%◌, ◌^◌, Bool, List, [], ◌∷◌, leb, ltb, ◌==◌, if◌then◌else◌,
}

-- An address and a number of bytes from it on.
pub record Region : Type 0 where
  pub base : ℕ
  pub size : ℕ

abbrev pub region : ℕ → ℕ → Region
region p n = record { base = p; size = n }

-- `blocks` has the last block first, each with its size.
pub record Arena : Type 0 where
  pub alloc_ptr : ℕ
  pub alloc_bytes_remaining : ℕ
  pub blocks : List Region
  pub blocks_memory : ℕ

abbrev pub block_size : ℕ
block_size = 4096

-- `align` in `AllocateAligned`, for pointers of at most 8 bytes.
abbrev pub align : ℕ
align = 8

unfoldable pub new_arena : Arena
new_arena = record { alloc_ptr = 0; alloc_bytes_remaining = 0; blocks = []; blocks_memory = 0 }

-- The address is `fresh`.
unfoldable pub allocate_new_block : ℕ → ℕ → Arena → Arena
allocate_new_block fresh bytes a = record a {
  blocks = region fresh bytes ∷ a.blocks;
  blocks_memory = a.blocks_memory + bytes;
}

unfoldable pub allocate_fallback : ℕ → ℕ → Arena → ℕ × Arena
unfolding allocate_new_block
allocate_fallback fresh bytes a =
    if ltb (block_size / 4) bytes then (fresh, allocate_new_block fresh bytes a) else (
      fresh,
      record (allocate_new_block fresh block_size a) {
        alloc_ptr = fresh + bytes;
        alloc_bytes_remaining = block_size - bytes;
      },
    )

unfoldable pub allocate : ℕ → ℕ → Arena → ℕ × Arena
unfolding allocate_fallback
allocate fresh bytes a =
    if leb bytes a.alloc_bytes_remaining
    then (
      a.alloc_ptr,
      record a {
        alloc_ptr = a.alloc_ptr + bytes;
        alloc_bytes_remaining = a.alloc_bytes_remaining - bytes;
      },
    )
    else allocate_fallback fresh bytes a

-- `A & (align - 1)` is A modulo `align`, as the source says.
unfoldable pub slop_of : ℕ → ℕ
slop_of p = let current_mod = p % align in if current_mod == 0 then 0 else align - current_mod

-- `needed` is a size_t.
unfoldable pub allocate_aligned : ℕ → ℕ → Arena → ℕ × Arena
unfolding allocate_fallback slop_of
allocate_aligned fresh bytes a =
    let slop = slop_of a.alloc_ptr in
    let needed = (bytes + slop) % 2 ^ 64 in
    if leb needed a.alloc_bytes_remaining
    then (
      a.alloc_ptr + slop,
      record a {
        alloc_ptr = a.alloc_ptr + needed;
        alloc_bytes_remaining = a.alloc_bytes_remaining - needed;
      },
    )
    else allocate_fallback fresh bytes a

-- `capacity` is that of the vector of the blocks, in pointers of 8 bytes.
unfoldable pub memory_usage : ℕ → Arena → ℕ
memory_usage capacity a = a.blocks_memory + capacity * 8
