-- ===== src/Coding.antt =====
-- util/coding.h and util/coding.cpp: fixed and variable length integers on byte strings. A
-- `std::string` and a `Slice` are lists of bytes, a pointer with its limit is the list of the
-- bytes between the two, and an advanced pointer is the rest of that list.
pub mod Fixed
pub mod Varint
pub mod Decode
pub mod Prefixed
mod Runs
use mathlib.Core.Logic.{dite}
use mathlib.Core.WellFounded.{Acc}
use native.Mathlib.Decide.{dec_le}
use squirrel.Prelude.{ℕ, zero, suc, ◌+◌, ◌-◌, ◌*◌, ◌/◌, ◌%◌, ◌^◌, ◌≤◌, ◌<◌, bit_and, bit_or, arith}
use squirrel.Prelude.{Bool, true, false, Option, none, some, List, [], ◌∷◌, ◌++◌}
use squirrel.Prelude.{ltb, leb, ◌==◌, if◌then◌else◌, length, get_or, take, drop, lt_wf}

abbrev pub IsByte : ℕ → Type 0
IsByte b = b < 256

abbrev pub IsU32 : ℕ → Type 0
IsU32 v = v < 2 ^ 32

abbrev pub IsU64 : ℕ → Type 0
IsU64 v = v < 2 ^ 64

-- The bytes of an object of `n` bytes on a little-endian machine, as `memcpy` moves them.
unfoldable pub native_bytes : ℕ → ℕ → List ℕ
native_bytes zero v = []
native_bytes (suc n) v = (v % 256) ∷ native_bytes n (v / 256)

unfoldable pub native_value : List ℕ → ℕ
native_value [] = 0
native_value (b ∷ bs) = b + 256 * native_value bs

-- `port::kLittleEndian`, which the build finds out. The routines below take it as an argument, and
-- the rest of the library reads it here.
abbrev pub little_endian : Bool
little_endian = true

-- The byte of `value` that starts at bit `k`.
abbrev byte_of : ℕ → ℕ → ℕ
byte_of value k = bit_and (value / 2 ^ k) 0xff

unfoldable pub encode_fixed32 : Bool → ℕ → List ℕ
encode_fixed32 little value =
    if little
    then native_bytes 4 value
    else (bit_and value 0xff) ∷ (byte_of value 8) ∷ (byte_of value 16) ∷ (byte_of value 24) ∷ []

unfoldable pub encode_fixed64 : Bool → ℕ → List ℕ
encode_fixed64 little value =
    if little
    then native_bytes 8 value
    else (bit_and value 0xff)
      ∷ (byte_of value 8)
      ∷ (byte_of value 16)
      ∷ (byte_of value 24)
      ∷ (byte_of value 32)
      ∷ (byte_of value 40)
      ∷ (byte_of value 48)
      ∷ (byte_of value 56)
      ∷ []

unfoldable pub put_fixed32 : List ℕ → ℕ → List ℕ
put_fixed32 dst value = dst ++ encode_fixed32 little_endian value

unfoldable pub put_fixed64 : List ℕ → ℕ → List ℕ
put_fixed64 dst value = dst ++ encode_fixed64 little_endian value

-- A read behind the last byte is undefined in the source. Here it reads 0, and the callers check
-- the length first.
abbrev pub byte_at : List ℕ → ℕ → ℕ
byte_at bs i = get_or bs i 0

unfoldable pub decode_fixed32 : Bool → List ℕ → ℕ
decode_fixed32 little ptr =
    if little
    then native_value (take 4 ptr)
    else bit_or
        (bit_or (bit_or (byte_at ptr 0) (byte_at ptr 1 * 2 ^ 8 % 2 ^ 32))
          (byte_at ptr 2 * 2 ^ 16 % 2 ^ 32))
        (byte_at ptr 3 * 2 ^ 24 % 2 ^ 32)

unfoldable pub decode_fixed64 : Bool → List ℕ → ℕ
decode_fixed64 little ptr =
    if little
    then native_value (take 8 ptr)
    else bit_or (decode_fixed32 little (drop 4 ptr) * 2 ^ 32 % 2 ^ 64) (decode_fixed32 little ptr)

-- `*(ptr++) = v` and `*(ptr++) = v | B`, through a pointer to unsigned char.
abbrev low_byte : ℕ → ℕ
low_byte v = v % 256

abbrev flagged : ℕ → ℕ
flagged v = bit_or v 128 % 256

unfoldable pub encode_varint32 : ℕ → List ℕ
encode_varint32 v =
    if ltb v (2 ^ 7)
    then low_byte v ∷ []
    else if ltb v (2 ^ 14)
    then flagged v ∷ low_byte (v / 2 ^ 7) ∷ []
    else if ltb v (2 ^ 21)
    then flagged v ∷ flagged (v / 2 ^ 7) ∷ low_byte (v / 2 ^ 14) ∷ []
    else if ltb v (2 ^ 28)
    then flagged v ∷ flagged (v / 2 ^ 7) ∷ flagged (v / 2 ^ 14) ∷ low_byte (v / 2 ^ 21) ∷ []
    else flagged v
      ∷ flagged (v / 2 ^ 7)
      ∷ flagged (v / 2 ^ 14)
      ∷ flagged (v / 2 ^ 21)
      ∷ low_byte (v / 2 ^ 28)
      ∷ []

unfoldable pub put_varint32 : List ℕ → ℕ → List ℕ
put_varint32 dst v = dst ++ encode_varint32 v

shift_shrinks : (v : ℕ) → 128 ≤ v → v / 2 ^ 7 < v
shift_shrinks v h = omega arith

-- The `while (v >= B)` loop, which leaves by writing the last byte.
encode_varint64_loop : (v : ℕ) → Acc ◌<◌ v → List ℕ
encode_varint64_loop v (Acc.intro _ smaller) =
    dite (dec_le 128 v)
      (λ more.
        (bit_or (bit_and v 127) 128 % 256)
        ∷ encode_varint64_loop (v / 2 ^ 7) (smaller _ (shift_shrinks v more)))
      (λ _. low_byte v ∷ [])

unfoldable pub encode_varint64 : ℕ → List ℕ
unfolding encode_varint64_loop shift_shrinks lt_wf dec_le
encode_varint64 v = encode_varint64_loop v (lt_wf.apply v)

unfoldable pub put_varint64 : List ℕ → ℕ → List ℕ
put_varint64 dst v = dst ++ encode_varint64 v

varint_length_loop : (v len : ℕ) → Acc ◌<◌ v → ℕ
varint_length_loop v len (Acc.intro _ smaller) =
    dite (dec_le 128 v)
      (λ more. varint_length_loop (v / 2 ^ 7) (len + 1) (smaller _ (shift_shrinks v more)))
      (λ _. len)

unfoldable pub varint_length : ℕ → ℕ
unfolding varint_length_loop shift_shrinks lt_wf dec_le
varint_length v = varint_length_loop v 1 (lt_wf.apply v)

-- The loop of `GetVarint32PtrFallback` (32 bits, last shift 28) and of `GetVarint64Ptr` (64 bits,
-- last shift 63). `none` is NULL.
unfoldable pub get_varint_loop : ℕ → ℕ → List ℕ → ℕ → ℕ → Option (ℕ × List ℕ)
get_varint_loop w last [] shift result = none
get_varint_loop w last (byte ∷ p) shift result =
    let more =
      get_varint_loop w last p (shift + 7) (bit_or result (bit_and byte 127 * 2 ^ shift % 2 ^ w)) in
    let done = some (bit_or result (byte * 2 ^ shift % 2 ^ w), p) in
    if leb shift last then (if bit_and byte 128 == 0 then done else more) else none

unfoldable pub get_varint32_ptr_fallback : List ℕ → Option (ℕ × List ℕ)
unfolding get_varint_loop
get_varint32_ptr_fallback p = get_varint_loop 32 28 p 0 0

-- `GetVarint32Ptr` with its fast path for one byte; also `GetVarint32`, which puts the new pointer
-- into its slice and leaves the slice alone on NULL.
unfoldable pub get_varint32 : List ℕ → Option (ℕ × List ℕ)
unfolding get_varint32_ptr_fallback
get_varint32 [] = get_varint32_ptr_fallback []
get_varint32 (result ∷ p) =
    if bit_and result 128 == 0 then some (result, p) else get_varint32_ptr_fallback (result ∷ p)

unfoldable pub get_varint64 : List ℕ → Option (ℕ × List ℕ)
unfolding get_varint_loop
get_varint64 p = get_varint_loop 64 63 p 0 0

-- The length is passed as a uint32_t.
unfoldable pub put_length_prefixed_slice : List ℕ → List ℕ → List ℕ
put_length_prefixed_slice dst value = put_varint32 dst (length value % 2 ^ 32) ++ value

slice_of_length : List ℕ → Option (ℕ × List ℕ) → Option (List ℕ) × List ℕ
slice_of_length input none = (none, input)
slice_of_length input (some (len, rest)) =
    if leb len (length rest) then (some (take len rest), drop len rest) else (none, rest)

-- The result, and what `input` is afterwards: on a short slice the length has been taken off.
unfoldable pub get_length_prefixed_slice : List ℕ → Option (List ℕ) × List ℕ
unfolding slice_of_length
get_length_prefixed_slice input = slice_of_length input (get_varint32 input)
