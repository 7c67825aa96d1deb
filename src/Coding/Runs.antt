-- ===== src/Coding/Runs.antt =====
-- Concrete runs of the codec, and its theorems at concrete inputs.
use squirrel.Prelude.{◌+◌, ◌≤◌, ◌<◌, ◌≡◌, refl, arith, false, some, none}
use squirrel.Prelude.{[], ◌∷◌, ◌++◌, length, All}
use squirrel.Coding.{IsByte, IsU32}
use squirrel.Coding.{encode_fixed32}
use squirrel.Coding.{encode_varint32, encode_varint64, varint_length, put_varint32, put_varint64}
use squirrel.Coding.{get_varint32, get_varint64, get_varint32_ptr_fallback}
use squirrel.Coding.{put_length_prefixed_slice, get_length_prefixed_slice}
use squirrel.Coding.Varint.{length-encode_varint64, encode_varint32-eq-encode_varint64}
use squirrel.Coding.Decode.{get-put_varint32, get-put_varint64, get_varint32-eq-fallback}
use squirrel.Coding.Decode.{get_varint32_bounds, get_varint64_truncated}
use squirrel.Coding.Prefixed.{get-put_length_prefixed_slice}

encode_300 : encode_varint32 300 ≡ 0xac ∷ 0x02 ∷ []
unfolding encode_varint32
encode_300 = refl

encode_300_wide : put_varint64 [] 300 ≡ 0xac ∷ 0x02 ∷ []
unfolding put_varint64 encode_varint64
encode_300_wide = refl

decode_300 : get_varint32 (0xac ∷ 0x02 ∷ 7 ∷ []) ≡ some (300, 7 ∷ [])
unfolding get_varint32
decode_300 = refl

decode_too_long : get_varint32 (0xff ∷ 0xff ∷ 0xff ∷ 0xff ∷ 0xff ∷ 1 ∷ []) ≡ none
unfolding get_varint32
decode_too_long = refl

portable_bytes : encode_fixed32 false 0x12345678 ≡ 0x78 ∷ 0x56 ∷ 0x34 ∷ 0x12 ∷ []
unfolding encode_fixed32
portable_bytes = refl

length-encode_varint64_example :
    (length (encode_varint64 300) ≡ varint_length 300)
    × (1 ≤ varint_length 300)
    × (varint_length 300 ≤ 10)
    × All IsByte (encode_varint64 300)
length-encode_varint64_example = length-encode_varint64 300 (omega arith)

encode_varint32-eq-encode_varint64_example : encode_varint32 300 ≡ encode_varint64 300
encode_varint32-eq-encode_varint64_example = encode_varint32-eq-encode_varint64 300 (omega arith)

get-put_varint32_example : get_varint32 (put_varint32 [] 300 ++ (7 ∷ [])) ≡ some (300, 7 ∷ [])
get-put_varint32_example = get-put_varint32 300 (7 ∷ []) (omega arith)

get-put_varint64_example : get_varint64 (put_varint64 [] 300 ++ (7 ∷ [])) ≡ some (300, 7 ∷ [])
get-put_varint64_example = get-put_varint64 300 (7 ∷ []) (omega arith)

get_varint32-eq-fallback_example :
    get_varint32 (5 ∷ 6 ∷ []) ≡ get_varint32_ptr_fallback (5 ∷ 6 ∷ [])
get_varint32-eq-fallback_example = get_varint32-eq-fallback (5 ∷ 6 ∷ []) (omega arith)

get_varint32_bounds_example : IsU32 300 × (1 < 3) × (3 ≤ 1 + 5)
get_varint32_bounds_example =
    get_varint32_bounds (0xac ∷ 0x02 ∷ 7 ∷ []) 300 (7 ∷ []) (omega arith) decode_300

get_varint64_truncated_example : get_varint64 (0xac ∷ []) ≡ none
get_varint64_truncated_example =
    get_varint64_truncated 300 0x02 (0xac ∷ []) [] (omega arith) encode_300_wide

get-put_length_prefixed_slice_example :
    get_length_prefixed_slice (put_length_prefixed_slice [] (1 ∷ 2 ∷ []) ++ (7 ∷ []))
    ≡ (some (1 ∷ 2 ∷ []), 7 ∷ [])
get-put_length_prefixed_slice_example =
    get-put_length_prefixed_slice (1 ∷ 2 ∷ []) (7 ∷ []) (omega arith)
