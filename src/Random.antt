-- ===== src/Random.antt =====
-- util/random.h: the generator. `OneIn` and `Uniform` take positive numbers.
pub mod Next
mod Runs
use squirrel.Prelude.{ℕ, ◌+◌, ◌-◌, ◌*◌, ◌/◌, ◌%◌, ◌^◌, ◌≡◌, bit_and, Bool, ltb, ◌==◌, if◌then◌else◌}

-- `seed_`, and the constant M.
pub record Random : Type 0 where
  pub seed : ℕ

abbrev pub modulus : ℕ
modulus = 2147483647

abbrev pub factor : ℕ
factor = 16807

unfoldable pub new_random : ℕ → Random
new_random s = record { seed = bit_and s 0x7fffffff }

-- The new state, whose seed is the result.
unfoldable pub next : Random → Random
next r =
    let product = r.seed * factor % 2 ^ 64 in
    let seed = (product / 2 ^ 31 + bit_and product modulus) % 2 ^ 32 in
    record { seed = if ltb modulus seed then seed - modulus else seed }

unfoldable pub uniform : ℕ → Random → ℕ × Random
uniform n r = ((next r).seed % n, next r)

unfoldable pub one_in : ℕ → Random → Bool × Random
one_in n r = ((next r).seed % n == 0, next r)

unfoldable pub skewed : ℕ → Random → ℕ × Random
skewed max_log r = let (base, r1) = uniform (max_log + 1) r in uniform (2 ^ base) r1
