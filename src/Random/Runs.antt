-- ===== src/Random/Runs.antt =====
-- Runs of the generator.
use squirrel.Prelude.{◌*◌, ◌%◌, ◌<◌, ◌≡◌, arith}
use squirrel.Random.{Random, next, modulus, factor}
use squirrel.Random.Next.{next-mod}

abbrev seeded : Random
seeded = record { seed = 301 }

next-mod_example :
    ((next seeded).seed ≡ 301 * factor % modulus)
    × (0 < (next seeded).seed)
    × ((next seeded).seed < modulus)
next-mod_example = next-mod seeded (omega arith) (omega arith)
