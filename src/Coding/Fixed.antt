-- ===== src/Coding/Fixed.antt =====
-- The fixed-width codec: both byte orders of the build agree, and decoding undoes encoding.
use squirrel.Prelude.{ℕ, zero, suc, ◌+◌, ◌*◌, ◌/◌, ◌%◌, ◌^◌, ◌≡◌, refl, ap, arith}
use squirrel.Prelude.{Bool, true, false, List, ◌++◌, length, drop, All, append_assoc}
use squirrel.Prelude.Bits.{and_255, or_high, or_low}
use squirrel.Coding.{IsByte, IsU32, IsU64, native_bytes, native_value}
use squirrel.Coding.{encode_fixed32, encode_fixed64, decode_fixed32, decode_fixed64}

pub length-native_bytes : (n v : ℕ) → length (native_bytes n v) ≡ n
unfolding native_bytes
length-native_bytes zero v = refl
length-native_bytes (suc n) v = ap suc (length-native_bytes n (v / 256))

pub native_bytes-IsByte : (n v : ℕ) → All IsByte (native_bytes n v)
unfolding native_bytes
native_bytes-IsByte zero v = tt
native_bytes-IsByte (suc n) v = (omega arith, native_bytes-IsByte n (v / 256))

-- The bytes that the portable branch writes are those that the little-endian `memcpy` writes.
pub encode_fixed32_portable : (little : Bool) (v : ℕ) → encode_fixed32 little v ≡ native_bytes 4 v
unfolding encode_fixed32 native_bytes
encode_fixed32_portable true v = refl
encode_fixed32_portable false v =
    ground (arith, and_255 v, and_255 (v / 2 ^ 8), and_255 (v / 2 ^ 16), and_255 (v / 2 ^ 24))

pub encode_fixed64_portable : (little : Bool) (v : ℕ) → encode_fixed64 little v ≡ native_bytes 8 v
unfolding encode_fixed64 native_bytes
encode_fixed64_portable true v = refl
encode_fixed64_portable false v = ground (
  arith,
  and_255 v,
  and_255 (v / 2 ^ 8),
  and_255 (v / 2 ^ 16),
  and_255 (v / 2 ^ 24),
  and_255 (v / 2 ^ 32),
  and_255 (v / 2 ^ 40),
  and_255 (v / 2 ^ 48),
  and_255 (v / 2 ^ 56),
)

-- The four bytes that start a string, as a number, whichever way they are read.
pub decode_native32 :
    (little : Bool) (v : ℕ) (rest : List ℕ)
    → decode_fixed32 little (native_bytes 4 v ++ rest) ≡ v % 2 ^ 32
unfolding decode_fixed32 native_bytes native_value
decode_native32 true v rest = omega arith
decode_native32 false v rest =
    let b0 = v % 256 in
    let b1 = v / 256 % 256 in
    let b2 = v / 256 / 256 % 256 in
    let b3 = v / 256 / 256 / 256 % 256 in
    ground (
      arith,
      or_high 8 b1 b0 (omega arith),
      or_high 16 b2 (b0 + b1 * 2 ^ 8) (omega arith),
      or_high 24 b3 (b0 + b1 * 2 ^ 8 + b2 * 2 ^ 16) (omega arith),
    )

native_bytes_halves : (v : ℕ) → native_bytes 8 v ≡ native_bytes 4 v ++ native_bytes 4 (v / 2 ^ 32)
unfolding native_bytes
native_bytes_halves v = ground arith

pub decode_native64 :
    (little : Bool) (v : ℕ) (rest : List ℕ)
    → IsU64 v
    → decode_fixed64 little (native_bytes 8 v ++ rest) ≡ v
decode_native64 true v rest h = unfold decode_fixed64 native_bytes native_value in omega arith
decode_native64 false v rest h =
    let hi = v / 2 ^ 32 in
    rw (native_bytes_halves v, append_assoc)
      (unfold decode_fixed64 in
        rw (upper, decode_native32 false v (native_bytes 4 hi ++ rest))
          (ground (arith, or_low 32 hi (v % 2 ^ 32) (omega arith))))
  where
    upper :
        decode_fixed32 false (drop 4 (native_bytes 4 v ++ (native_bytes 4 (v / 2 ^ 32) ++ rest)))
        ≡ v / 2 ^ 32 % 2 ^ 32
    upper = unfold native_bytes in decode_native32 false (v / 2 ^ 32) rest

-- Whatever the byte orders of the writer and of the reader, `DecodeFixed32` reads back the
-- uint32_t that `EncodeFixed32` wrote, with any bytes behind it.
pub decode-encode_fixed32 :
    (writer reader : Bool) (v : ℕ) (rest : List ℕ)
    → IsU32 v
    → decode_fixed32 reader (encode_fixed32 writer v ++ rest) ≡ v
decode-encode_fixed32 writer reader v rest h =
    rw (encode_fixed32_portable, decode_native32) (omega arith)

-- Whatever the byte orders of the writer and of the reader, `DecodeFixed64` reads back the
-- uint64_t that `EncodeFixed64` wrote, with any bytes behind it.
pub decode-encode_fixed64 :
    (writer reader : Bool) (v : ℕ) (rest : List ℕ)
    → IsU64 v
    → decode_fixed64 reader (encode_fixed64 writer v ++ rest) ≡ v
decode-encode_fixed64 writer reader v rest h =
    rw encode_fixed64_portable (decode_native64 reader v rest h)
