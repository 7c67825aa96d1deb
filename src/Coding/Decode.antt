-- ===== src/Coding/Decode.antt =====
-- The varint decoders: they read back what the encoders wrote, and on any input they stay inside
-- it and return an integer of their width.
use native.Mathlib.Nat.{pow-suc, mod-eq_of_lt, mod-lt, div-add-mod}
use squirrel.Prelude.{
  ℕ, zero, suc, ◌+◌, ◌*◌, ◌/◌, ◌%◌, ◌^◌, ◌≤◌, ◌<◌, ◌≡◌, refl, ap, sym, ◌∙◌, arith,
}
use squirrel.Prelude.{List, [], ◌∷◌, ◌++◌, length, All, ◌==◌, bit_or, bit_and}
use squirrel.Prelude.{none, some, Option-cases, inl, inr, append-nil}
use squirrel.Prelude.{length-append, mul_mono, pow-add_seven, pow_pos, false, Bool-cases, le→leb}
use squirrel.Prelude.Bits.{and_127, and_bit_128, or_high, or-lt, zero-or}
use squirrel.Coding.{IsByte, IsU32, IsU64, put_varint32, put_varint64}
use squirrel.Coding.{get_varint_loop, get_varint32_ptr_fallback, get_varint32, get_varint64}
use squirrel.Coding.Varint.{
  base128, encode_varint32-base128, encode_varint64-base128, length-base128, base128-IsByte,
}

-- Moving `q` to the bits above `result` adds it, where the sum fits the word.
place :
    (w shift result q : ℕ)
    → result < 2 ^ shift
    → result + q * 2 ^ shift < 2 ^ w
    → bit_or result (q * 2 ^ shift % 2 ^ w) ≡ result + q * 2 ^ shift
place w shift result q h fits =
    rw (mod-eq_of_lt {n = q * 2 ^ shift} {m = 2 ^ w} (omega arith)) (or_high shift q result h)

split_group : (v s : ℕ) → v * 2 ^ s ≡ v % 128 * 2 ^ s + v / 128 * 2 ^ (s + 7)
split_group v s = omega (
  arith,
  ap (λ (t : ℕ). t * 2 ^ s) (div-add-mod v 128),
  ap (λ (t : ℕ). v / 128 * t) (pow-add_seven s),
)

-- One round on a last byte, and on a byte with the flag set over the group `g`.
last_round :
    (w last v shift result : ℕ) (rest : List ℕ)
    → v < 128
    → shift ≤ last
    → result < 2 ^ shift
    → result + v * 2 ^ shift < 2 ^ w
    → get_varint_loop w last (v ∷ rest) shift result ≡ some (result + v * 2 ^ shift, rest)
unfolding get_varint_loop
last_round w last v shift result rest hv hs hr fits =
    ground (arith, place w shift result v, and_bit_128 v)

inner_round :
    (w last g shift result : ℕ) (rest : List ℕ)
    → g < 128
    → shift ≤ last
    → result < 2 ^ shift
    → result + g * 2 ^ shift < 2 ^ w
    → get_varint_loop w last ((g + 128) ∷ rest) shift result
      ≡ get_varint_loop w last rest (shift + 7) (result + g * 2 ^ shift)
unfolding get_varint_loop
inner_round w last g shift result rest hg hs hr fits =
    let masked : bit_and (g + 128) 127 ≡ g = omega (arith, and_127 (g + 128)) in
    let more : (bit_and (g + 128) 128 == 0) ≡ false = ground (arith, and_bit_128 (g + 128)) in
    rw (masked, place w shift result g hr fits, le→leb shift last hs, more)

fits_above :
    (g shift result : ℕ) → g < 128 → result < 2 ^ shift → result + g * 2 ^ shift < 2 ^ (shift + 7)
fits_above g shift result hg hr =
    omega (arith, pow-add_seven shift, mul_mono g 127 (2 ^ shift) (omega arith))

-- `v` is what is still to be read; it counts from bit `shift` on.
loop-base128 :
    (k w last v shift result : ℕ) (rest : List ℕ)
    → v < 128 ^ suc k
    → shift + 7 * k ≤ last
    → result < 2 ^ shift
    → result + v * 2 ^ shift < 2 ^ w
    → get_varint_loop w last (base128 k v ++ rest) shift result
      ≡ some (result + v * 2 ^ shift, rest)
unfolding base128
loop-base128 zero w last v shift result rest hv hs hr fits =
    last_round w last v shift result rest (omega arith) (omega arith) hr fits
loop-base128 (suc k) w last v shift result rest hv hs hr fits = ground (
  arith,
  last_round w last v shift result rest,
  split_group v shift,
  inner_round w last (v % 128) shift result (base128 k (v / 128) ++ rest),
  fits_above (v % 128) shift result,
  loop-base128 k w last (v / 128) (shift + 7) (result + v % 128 * 2 ^ shift) rest
      (omega (arith, pow-suc 128 (suc k))),
)

fast_path :
    (b : ℕ) (p : List ℕ) → IsByte b → get_varint32 (b ∷ p) ≡ get_varint32_ptr_fallback (b ∷ p)
unfolding get_varint32
fast_path b p h = elim (Bool-cases (bit_and b 128 == 0)) [
  | inl one ↦ rw one (ground (arith, and_bit_128 b, zero-or (b * 2 ^ 0 % 2 ^ 32)))
  | inr more ↦ rw more
]

fast_path-append :
    (front rest : List ℕ)
    → All IsByte front
    → 1 ≤ length front
    → get_varint32 (front ++ rest) ≡ get_varint32_ptr_fallback (front ++ rest)
fast_path-append [] rest h one = absurd (omega arith)
fast_path-append (b ∷ front) rest h one = fast_path b (front ++ rest) h.0

-- `GetVarint32` reads back the uint32_t that `PutVarint32` wrote, and leaves what follows it.
pub get-put_varint32 :
    (v : ℕ) (rest : List ℕ) → IsU32 v → get_varint32 (put_varint32 [] v ++ rest) ≡ some (v, rest)
get-put_varint32 v rest h =
    rw (whole, slow)
      (unfold get_varint32_ptr_fallback in ground (arith, loop-base128 4 32 28 v 0 0 rest))
  where
    whole : put_varint32 [] v ++ rest ≡ base128 4 v ++ rest
    whole = unfold put_varint32 in rw (encode_varint32-base128 v h)

    slow : get_varint32 (base128 4 v ++ rest) ≡ get_varint32_ptr_fallback (base128 4 v ++ rest)
    slow =
        fast_path-append (base128 4 v) rest (base128-IsByte 4 v (omega arith))
          (length-base128 4 v).0

-- `GetVarint64` reads back the uint64_t that `PutVarint64` wrote, and leaves what follows it.
pub get-put_varint64 :
    (v : ℕ) (rest : List ℕ) → IsU64 v → get_varint64 (put_varint64 [] v ++ rest) ≡ some (v, rest)
get-put_varint64 v rest h =
    rw whole (unfold get_varint64 in ground (arith, loop-base128 9 64 63 v 0 0 rest))
  where
    whole : put_varint64 [] v ++ rest ≡ base128 9 v ++ rest
    whole = unfold put_varint64 in rw (encode_varint64-base128 v h)

loop_bounds :
    (k w last shift result : ℕ) (src : List ℕ) (v : ℕ) (rest : List ℕ)
    → result < 2 ^ w
    → last < shift + 7 * k
    → get_varint_loop w last src shift result ≡ some (v, rest)
    → (v < 2 ^ w) × (length rest < length src) × (length src ≤ length rest + k)
unfolding get_varint_loop
loop_bounds k w last shift result [] v rest hr hk e = cc
loop_bounds zero w last shift result (b ∷ src) v rest hr hk e = absurd (ground arith)
loop_bounds (suc k) w last shift result (b ∷ src) v rest hr hk e = ground (
  arith,
  pow_pos w,
  mod-lt (b * 2 ^ shift) (pow_pos w),
  mod-lt (bit_and b 127 * 2 ^ shift) (pow_pos w),
  or-lt w result (b * 2 ^ shift % 2 ^ w),
  or-lt w result (bit_and b 127 * 2 ^ shift % 2 ^ w),
  loop_bounds k w last (shift + 7) (bit_or result (bit_and b 127 * 2 ^ shift % 2 ^ w)) src v rest,
)

-- On bytes, the one-byte fast path of `GetVarint32Ptr` changes nothing: the result is the one of
-- the fallback loop.
pub get_varint32-eq-fallback :
    (p : List ℕ) → All IsByte p → get_varint32 p ≡ get_varint32_ptr_fallback p
get_varint32-eq-fallback [] h = unfold get_varint32 in refl
get_varint32-eq-fallback (b ∷ p) h = fast_path b p h.0

-- On any bytes, a `GetVarint32` that succeeds returns a uint32_t and has taken 1 to 5 bytes.
pub get_varint32_bounds :
    (src : List ℕ) (v : ℕ) (rest : List ℕ)
    → All IsByte src
    → get_varint32 src ≡ some (v, rest)
    → IsU32 v × (length rest < length src) × (length src ≤ length rest + 5)
get_varint32_bounds src v rest h e =
    loop_bounds 5 32 28 0 0 src v rest (omega arith) (omega arith)
      (unfold get_varint32_ptr_fallback in (sym (get_varint32-eq-fallback src h) ∙ e))

-- On any input, a `GetVarint64` that succeeds returns a uint64_t and has taken 1 to 10 bytes.
pub get_varint64_bounds :
    (src : List ℕ) (v : ℕ) (rest : List ℕ)
    → get_varint64 src ≡ some (v, rest)
    → IsU64 v × (length rest < length src) × (length src ≤ length rest + 10)
unfolding get_varint64
get_varint64_bounds src v rest e = loop_bounds 10 64 63 0 0 src v rest (omega arith) (omega arith) e

loop-append :
    (w last shift result : ℕ) (src more : List ℕ) (v : ℕ) (rest : List ℕ)
    → get_varint_loop w last src shift result ≡ some (v, rest)
    → get_varint_loop w last (src ++ more) shift result ≡ some (v, rest ++ more)
unfolding get_varint_loop
loop-append w last shift result [] more v rest e = cc
loop-append w last shift result (b ∷ src) more v rest e = ground (
  arith,
  loop-append w last (shift + 7) (bit_or result (bit_and b 127 * 2 ^ shift % 2 ^ w)) src more v
      rest,
)

-- No proper prefix of what `PutVarint64` wrote is read as a number.
pub get_varint64_truncated :
    (v x : ℕ) (front back : List ℕ)
    → IsU64 v
    → put_varint64 [] v ≡ front ++ (x ∷ back)
    → get_varint64 front ≡ none
unfolding get_varint64
get_varint64_truncated v x front back h e = elim (Option-cases (get_varint64 front)) [
  | inl short ↦ short
  | inr ((u, rest), found) ↦ absurd (
      ground (
        arith,
        whole,
        loop-append 64 63 0 0 front (x ∷ back) u rest found,
        length-append rest (x ∷ back),
      ))
]
  where
    whole : get_varint64 (front ++ (x ∷ back)) ≡ some (v, [])
    whole = rw (append-nil, e) at (get-put_varint64 v [] h)
