-- ===== src/Prelude/Masks.antt =====
-- A mask of low bits is a remainder.
use Prim.Native.Nat.{ℕ, zero, suc, ◌+◌, ◌-◌, ◌*◌, ◌/◌, ◌%◌, ◌^◌, ◌<◌, bit_and}
use mathlib.Core.Path.{◌≡◌, ap, sym, ◌∙◌}
use native.Mathlib.Nat.{pow-suc, mod-lt, mod-eq_of_lt, div-add-mod', add-mul-mod_self_right}
use native.Mathlib.Omega.{arith}
use squirrel.Prelude.Bits.{and_digit, and-zero, double_pow}
use squirrel.Prelude.Order.{pow_pos}

-- The low `k` bits.
pub and_mask : (k a : ℕ) → bit_and a (2 ^ k - 1) ≡ a % 2 ^ k
and_mask zero a = omega (arith, and-zero a)
and_mask (suc k) a =
    let p = pow-suc 2 k in
    let positive = pow_pos k in
    let half : (2 ^ suc k - 1) / 2 ≡ 2 ^ k - 1 = omega (arith, p, positive) in
    let digit = and_digit a (2 ^ suc k - 1) in
    let low : bit_and a (2 ^ suc k - 1) ≡ a / 2 % 2 ^ k * 2 + a % 2 =
      omega (arith, rw half at digit, and_mask k (a / 2), p, positive) in
    let inside : a / 2 % 2 ^ k < 2 ^ k = mod-lt (a / 2) positive in
    let whole : a ≡ a / 2 % 2 ^ k * 2 + a % 2 + a / 2 / 2 ^ k * 2 ^ suc k =
      omega (arith, div-add-mod' (a / 2) (2 ^ k), double_pow (a / 2 / 2 ^ k) k) in
    low
    ∙ sym (mod-eq_of_lt (omega (arith, inside, p)))
    ∙ sym (add-mul-mod_self_right (a / 2 % 2 ^ k * 2 + a % 2) (a / 2 / 2 ^ k) (2 ^ suc k))
    ∙ ap (λ x. x % 2 ^ suc k) (sym whole)
