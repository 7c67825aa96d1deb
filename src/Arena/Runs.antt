-- ===== src/Arena/Runs.antt =====
-- The arena's theorems after a first allocation.
use squirrel.Prelude.{◌%◌, ◌≡◌, refl, arith, [], ◌∷◌}
use squirrel.Arena.{Arena, region, align, new_arena, allocate, allocate_aligned}
use squirrel.Arena.Invariant.{
  IsArena, new_arena-IsArena, allocate-IsArena, allocate_aligned-IsArena,
}

abbrev first : Arena
first = (allocate 4096 100 new_arena).1

first-IsArena : IsArena first (region (allocate 4096 100 new_arena).0 100 ∷ [])
first-IsArena =
    allocate-IsArena 4096 100 new_arena [] (omega arith)
      (unfold new_arena in record { apart = tt; aligned = refl }) new_arena-IsArena

allocate_aligned-IsArena_example :
    IsArena (allocate_aligned 16384 8 first).1 (
      region (allocate_aligned 16384 8 first).0 8
      ∷ (region (allocate 4096 100 new_arena).0 100 ∷ []))
    × ((allocate_aligned 16384 8 first).0 % align ≡ 0)
allocate_aligned-IsArena_example =
    allocate_aligned-IsArena 16384 8 first (region (allocate 4096 100 new_arena).0 100 ∷ [])
      (omega arith) (omega arith) (unfold new_arena allocate in omega arith) first-IsArena

skips_to_alignment : (allocate_aligned 16384 8 first).0 ≡ 4200
unfolding allocate_aligned allocate new_arena
skips_to_alignment = refl
