-- ===== src/Coding/Prefixed.antt =====
-- Length-prefixed slices: reading undoes writing.
use native.Mathlib.Nat.{mod-eq_of_lt}
use squirrel.Prelude.{ℕ, ◌^◌, ◌≡◌, arith}
use squirrel.Prelude.{List, [], ◌++◌, length, some, append_assoc, le→leb}
use squirrel.Prelude.{length-append, take-length_append, drop-length_append}
use squirrel.Coding.{IsU32, put_varint32, slice_of_length}
use squirrel.Coding.{put_length_prefixed_slice, get_length_prefixed_slice}
use squirrel.Coding.Decode.{get-put_varint32}

slice_of_length-append :
    (value rest : List ℕ)
    → slice_of_length [] (some (length value, value ++ rest)) ≡ (some value, rest)
unfolding slice_of_length
slice_of_length-append value rest = rw (
  le→leb (length value) (length (value ++ rest)) (omega (arith, length-append value rest)),
  take-length_append value rest,
  drop-length_append value rest,
)

-- `GetLengthPrefixedSlice` returns the slice that `PutLengthPrefixedSlice` wrote, and leaves its
-- input at what follows it, for every slice whose length is a uint32_t.
pub get-put_length_prefixed_slice :
    (value rest : List ℕ)
    → IsU32 (length value)
    → get_length_prefixed_slice (put_length_prefixed_slice [] value ++ rest) ≡ (some value, rest)
get-put_length_prefixed_slice value rest h =
    unfold put_length_prefixed_slice get_length_prefixed_slice in
    rw
      (
        mod-eq_of_lt {n = length value} {m = 2 ^ 32} h,
        append_assoc (put_varint32 [] (length value)) value rest,
        get-put_varint32 (length value) (value ++ rest) h,
      )
      (slice_of_length-append value rest)
