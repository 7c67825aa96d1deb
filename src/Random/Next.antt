-- ===== src/Random/Next.antt =====
-- The generator computes its recurrence without a division.
use squirrel.Prelude.{◌*◌, ◌%◌, ◌^◌, ◌<◌, ◌≡◌, arith}
use squirrel.Prelude.Masks.{and_mask}
use squirrel.Random.{Random, next, modulus, factor}

-- From a seed that is neither 0 nor M nor larger, `Next` makes the seed times 16807 modulo M, which
-- is again neither 0 nor M nor larger.
pub next-mod :
    (r : Random)
    → 0 < r.seed
    → r.seed < modulus
    → ((next r).seed ≡ r.seed * factor % modulus) × (0 < (next r).seed) × ((next r).seed < modulus)
unfolding next
next-mod r pos small = ground (arith, and_mask 31 (r.seed * factor % 2 ^ 64))
