-- ===== src/Arena/Invariant.antt =====
-- What an arena hands out never overlaps.
use native.Mathlib.Nat.{mod-eq_of_lt}
use squirrel.Prelude.{
  ℕ, ◌+◌, ◌-◌, ◌/◌, ◌%◌, ◌^◌, ◌≤◌, ◌<◌, ◌≡◌, refl, subst, sym, arith, ◌⊎◌, inl, inr, List, [], ◌∷◌,
  All, ltb, leb, if◌then◌else◌, Bool-cases,
}
use squirrel.Arena.{
  Region, region, Arena, block_size, align, new_arena, allocate_fallback, allocate,
  allocate_aligned, slop_of, allocate_new_block,
}
use squirrel.Arena.Regions.{
  Apart, Within, AllApart, Apart-of_Within, All-Apart-of_Within, Apart-smaller, Within-more,
  Within-smaller,
}

abbrev pub total : List Region → ℕ
total [] = 0
total (b ∷ bs) = b.size + total bs

abbrev pub free_space : Arena → Region
free_space a = region a.alloc_ptr a.alloc_bytes_remaining

-- `used` are the regions that have been handed out. They lie in the blocks, and neither overlap
-- each other nor the free space, which lies in a block.
pub record IsArena (a : Arena) (used : List Region) : Type 0 where
  pub inside : All (λ r. Within r a.blocks) used
  pub free : ((a.alloc_ptr ≡ 0) × (a.alloc_bytes_remaining ≡ 0)) ⊎ Within (free_space a) a.blocks
  pub spare : All (λ r. Apart (free_space a) r) used
  pub apart : AllApart used
  pub accounted : a.blocks_memory ≡ total a.blocks

-- What `new char[bytes]` returns: memory that is in no other block, on a multiple of 8.
pub record IsFresh (a : Arena) (fresh bytes : ℕ) : Type 0 where
  pub apart : All (λ b. Apart (region fresh bytes) b) a.blocks
  pub aligned : fresh % align ≡ 0

-- The size of the block that a call for `bytes` may ask for.
abbrev pub block_for : ℕ → ℕ
block_for bytes = if ltb (block_size / 4) bytes then bytes else block_size

-- From the free space, behind `slop` bytes that stay unused.
carve : ℕ → ℕ → Arena → Arena
carve slop bytes a = record a {
  alloc_ptr = a.alloc_ptr + (bytes + slop);
  alloc_bytes_remaining = a.alloc_bytes_remaining - (bytes + slop);
}

carve-IsArena :
    (slop bytes : ℕ) (a : Arena) (used : List Region)
    → 0 < bytes
    → bytes + slop ≤ a.alloc_bytes_remaining
    → IsArena a used
    → IsArena (carve slop bytes a) (region (a.alloc_ptr + slop) bytes ∷ used)
unfolding carve
carve-IsArena slop bytes a used some_bytes fits v = elim v.free [
  | inl none_left ↦ absurd (omega arith)
  | inr w ↦
      let taken = region (a.alloc_ptr + slop) bytes in
      let rest = free_space (carve slop bytes a) in
      record {
        inside = (Within-smaller (free_space a) taken a.blocks (omega arith) w, v.inside);
        free = inr (Within-smaller (free_space a) rest a.blocks (omega arith) w);
        spare = (inr (omega arith), Apart-smaller (free_space a) rest used (omega arith) v.spare);
        apart = (Apart-smaller (free_space a) taken used (omega arith) v.spare, v.apart);
        accounted = v.accounted;
      }
]

free-Apart :
    (a : Arena) (used : List Region) (fresh n : ℕ)
    → IsArena a used
    → All (λ b. Apart (region fresh n) b) a.blocks
    → Apart (free_space a) (region fresh n)
free-Apart a used fresh n v f = elim v.free [
  | inl none_yet ↦ inl (omega arith)
  | inr w ↦ elim (Apart-of_Within (region fresh n) (free_space a) a.blocks f w) [
    | inl h ↦ inr h
    | inr h ↦ inl h
  ]
]

fallback-IsArena :
    (fresh bytes : ℕ) (a : Arena) (used : List Region)
    → IsFresh a fresh (block_for bytes)
    → IsArena a used
    → IsArena (allocate_fallback fresh bytes a).1 (region fresh bytes ∷ used)
unfolding allocate_fallback allocate_new_block
fallback-IsArena fresh bytes a used f v = elim (Bool-cases (ltb (block_size / 4) bytes)) [
  | inl large ↦
      let new : All (λ b. Apart (region fresh bytes) b) a.blocks =
        subst (λ n. All (λ b. Apart (region fresh n) b) a.blocks) (rw large refl) f.apart in
      let b = region fresh bytes in
      rw large (record {
        inside = (inl (omega arith), Within-more b a.blocks used v.inside);
        free = elim v.free [ inl none_yet ↦ inl none_yet | inr w ↦ inr (inr w) ];
        spare = (free-Apart a used fresh bytes v new, v.spare);
        apart = (All-Apart-of_Within b a.blocks used new v.inside, v.apart);
        accounted = omega (arith, v.accounted);
      })
  | inr small ↦
      let new : All (λ b. Apart (region fresh block_size) b) a.blocks =
        subst (λ n. All (λ b. Apart (region fresh n) b) a.blocks) (rw small refl) f.apart in
      let b = region fresh block_size in
      let old = All-Apart-of_Within b a.blocks used new v.inside in
      rw small (record {
        inside = (inl (ground arith), Within-more b a.blocks used v.inside);
        free = inr (inl (ground arith));
        spare = (
          inr (ground arith),
          Apart-smaller b (region (fresh + bytes) (block_size - bytes)) used (ground arith) old,
        );
        apart = (Apart-smaller b (region fresh bytes) used (ground arith) old, v.apart);
        accounted = omega (arith, v.accounted);
      })
]

fallback_address : (fresh bytes : ℕ) (a : Arena) → (allocate_fallback fresh bytes a).0 ≡ fresh
unfolding allocate_fallback
fallback_address fresh bytes a = ground arith

carve_whole :
    (bytes : ℕ) (a : Arena) (used : List Region)
    → 0 < bytes
    → bytes ≤ a.alloc_bytes_remaining
    → IsArena a used
    → IsArena
        (record a {
          alloc_ptr = a.alloc_ptr + bytes;
          alloc_bytes_remaining = a.alloc_bytes_remaining - bytes;
        })
        (region a.alloc_ptr bytes ∷ used)
unfolding carve
carve_whole bytes a used some_bytes fits v =
    let h = carve-IsArena 0 bytes a used some_bytes (omega arith) v in
    let none : a.alloc_ptr + 0 ≡ a.alloc_ptr = omega arith in
    let same : bytes + 0 ≡ bytes = omega arith in rw (none, same) at h

-- A new arena has handed out nothing.
pub new_arena-IsArena : IsArena new_arena []
unfolding new_arena
new_arena-IsArena = record {
  inside = tt;
  free = inl (refl, refl);
  spare = tt;
  apart = tt;
  accounted = refl;
}

-- `Allocate` of a positive number of bytes hands out that many that lie in one of the blocks, and
-- overlap neither what was handed out before nor what is still free, and the memory of the blocks
-- is accounted for, where `new` returns memory that is in no other block.
pub allocate-IsArena :
    (fresh bytes : ℕ) (a : Arena) (used : List Region)
    → 0 < bytes
    → IsFresh a fresh (block_for bytes)
    → IsArena a used
    → IsArena (allocate fresh bytes a).1 (region (allocate fresh bytes a).0 bytes ∷ used)
unfolding allocate
allocate-IsArena fresh bytes a used some_bytes f v =
    elim (Bool-cases (leb bytes a.alloc_bytes_remaining)) [
      | inl fits ↦ rw fits (carve_whole bytes a used some_bytes (ground arith) v)
      | inr full ↦ rw full (
          subst (λ p. IsArena (allocate_fallback fresh bytes a).1 (region p bytes ∷ used))
            (sym (fallback_address fresh bytes a)) (fallback-IsArena fresh bytes a used f v))
    ]

slop_lt : (p : ℕ) → slop_of p < 8
unfolding slop_of
slop_lt p = ground arith

-- `AllocateAligned` of a positive number of bytes, at most 2^64 - 8, hands out that many at an
-- address that is a multiple of 8. They lie in one of the blocks, and overlap neither what was
-- handed out before nor what is still free, and the memory of the blocks is accounted for, where
-- that was so of the arena before and `new` returns memory that is in no other block and on a
-- multiple of 8.
pub allocate_aligned-IsArena :
    (fresh bytes : ℕ) (a : Arena) (used : List Region)
    → 0 < bytes
    → bytes ≤ 2 ^ 64 - 8
    → IsFresh a fresh (block_for bytes)
    → IsArena a used
    → IsArena
        (allocate_aligned fresh bytes a).1
        (region (allocate_aligned fresh bytes a).0 bytes ∷ used)
      × ((allocate_aligned fresh bytes a).0 % align ≡ 0)
unfolding allocate_aligned
allocate_aligned-IsArena fresh bytes a used some_bytes bounded f v =
    let whole : (bytes + slop_of a.alloc_ptr) % 2 ^ 64 ≡ bytes + slop_of a.alloc_ptr =
      mod-eq_of_lt (omega (arith, bounded, slop_lt a.alloc_ptr)) in
    rw whole (elim (Bool-cases (leb (bytes + slop_of a.alloc_ptr) a.alloc_bytes_remaining)) [
      | inl fits ↦ rw fits (
        unfold carve in
            carve-IsArena (slop_of a.alloc_ptr) bytes a used some_bytes (ground arith) v,
        unfold slop_of in ground arith,
      )
      | inr full ↦ rw full (
        subst (λ p. IsArena (allocate_fallback fresh bytes a).1 (region p bytes ∷ used))
            (sym (fallback_address fresh bytes a)) (fallback-IsArena fresh bytes a used f v),
        rw (fallback_address fresh bytes a) f.aligned,
      )
    ])
