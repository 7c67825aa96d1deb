-- ===== src/Table/Block/Decode.antt =====
-- `DecodeEntry` on the three sizes and what follows them.
use squirrel.Prelude.{ℕ, ◌+◌, ◌^◌, ◌≤◌, ◌<◌, ◌≡◌, refl, ap, arith, true, false}
use squirrel.Prelude.{bit_or, ◌⊎◌, some, List, [], ◌∷◌, ◌++◌, length, ltb, inl, inr}
use squirrel.Prelude.{length-append, ge→ltb, lt→ltb}
use squirrel.Prelude.Bits.{or_128, or-ge, or-lt}
use squirrel.Coding.{encode_varint32, put_varint32, get_varint32, IsU32, byte_at}
use squirrel.Coding.Decode.{get-put_varint32}
use squirrel.Coding.Varint.{encode_varint32-eq-encode_varint64, length-encode_varint64}
use squirrel.Table.Block.{
  Entry, decode_entry, check_entry, slow_shared, slow_non_shared, slow_value_length,
}

get-varint32 :
    (v : ℕ) (rest : List ℕ) → IsU32 v → get_varint32 (encode_varint32 v ++ rest) ≡ some (v, rest)
unfolding put_varint32
get-varint32 v rest h = get-put_varint32 v rest h

-- A number below 128 takes a byte, and a larger one begins with a byte from 128 on.
varint32_cases :
    (v : ℕ)
    → IsU32 v
    → (v < 128) × (encode_varint32 v ≡ v ∷ []) ⊎ (128 ≤ byte_at (encode_varint32 v) 0)
unfolding encode_varint32
varint32_cases v h = ground (arith, or_128 v)

pub length-varint32 : (v : ℕ) → IsU32 v → 1 ≤ length (encode_varint32 v)
length-varint32 v h =
    rw (encode_varint32-eq-encode_varint64 v h)
      (omega (arith, length-encode_varint64 v (omega arith)))

first_byte : (e rest : List ℕ) → 1 ≤ length e → byte_at (e ++ rest) 0 ≡ byte_at e 0
first_byte [] rest h = absurd (omega arith)
first_byte (x ∷ e) rest h = refl

abbrev pub entry_of : ℕ → ℕ → ℕ → List ℕ → Entry
entry_of s n v body = record { shared = s; non_shared = n; value_length = v; rest = body }

abbrev pub bytes_of : ℕ → ℕ → ℕ → List ℕ → List ℕ
bytes_of s n v body = encode_varint32 s ++ (encode_varint32 n ++ (encode_varint32 v ++ body))

module _ (s n v : ℕ) (body : List ℕ) (hs : IsU32 s) (hn : IsU32 n) (hv : IsU32 v) where
  abbrev entry_bytes : List ℕ
  entry_bytes = bytes_of s n v body

  abbrev entry : Entry
  entry = entry_of s n v body

  slow-entry : slow_shared (get_varint32 entry_bytes) ≡ some entry
  unfolding slow_shared slow_non_shared slow_value_length
  slow-entry =
      rw
        (
          get-varint32 s (encode_varint32 n ++ (encode_varint32 v ++ body)) hs,
          get-varint32 n (encode_varint32 v ++ body) hn,
          get-varint32 v body hv,
        )
        refl

  -- The test of the fast path holds for three numbers of a byte, and for no others.
  fast_path :
      (s < 128) × (n < 128) × (v < 128) × (entry_bytes ≡ s ∷ n ∷ v ∷ body)
      ⊎ (128
          ≤ bit_or (bit_or (byte_at entry_bytes 0) (byte_at entry_bytes 1)) (byte_at entry_bytes 2))
  fast_path =
      let b0 = byte_at entry_bytes 0 in
      let b1 = byte_at entry_bytes 1 in
      let b2 = byte_at entry_bytes 2 in
      elim (varint32_cases s hs) [
        | inr large ↦ inr (
            omega (
              arith,
              or-ge b0 b1,
              or-ge (bit_or b0 b1) b2,
              first_byte (encode_varint32 s) (encode_varint32 n ++ (encode_varint32 v ++ body))
                  (length-varint32 s hs),
            ))
        | inl (s_small, es) ↦ elim (varint32_cases n hn) [
          | inr large ↦ inr (
              omega (
                arith,
                or-ge b0 b1,
                or-ge (bit_or b0 b1) b2,
                ap (λ e. byte_at (e ++ (encode_varint32 n ++ (encode_varint32 v ++ body))) 1) es,
                first_byte (encode_varint32 n) (encode_varint32 v ++ body) (length-varint32 n hn),
              ))
          | inl (n_small, en) ↦ elim (varint32_cases v hv) [
            | inr large ↦ inr (
                omega (
                  arith,
                  or-ge (bit_or b0 b1) b2,
                  ap (λ e. byte_at (e ++ (encode_varint32 n ++ (encode_varint32 v ++ body))) 2) es,
                  ap (λ e. byte_at (e ++ (encode_varint32 v ++ body)) 1) en,
                  first_byte (encode_varint32 v) body (length-varint32 v hv),
                ))
            | inl (v_small, ev) ↦ inl (s_small, n_small, v_small, rw (es, en, ev) refl)
          ]
        ]
      ]

  pub decode-entry :
      n + v ≤ length body → length body < 2 ^ 32 → decode_entry entry_bytes ≡ some entry
  unfolding decode_entry
  decode-entry fits small =
      let long_enough : ltb (length entry_bytes) 3 ≡ false = ge→ltb (length entry_bytes) 3 (
        omega (
          arith,
          length-varint32 s hs,
          length-varint32 n hn,
          length-varint32 v hv,
          length-append (encode_varint32 s) (encode_varint32 n ++ (encode_varint32 v ++ body)),
          length-append (encode_varint32 n) (encode_varint32 v ++ body),
          length-append (encode_varint32 v) body,
        )) in
      let checked : check_entry (some entry) ≡ some entry = unfold check_entry in ground arith in
      elim fast_path [
        | inr large ↦ rw (long_enough, ge→ltb _ 128 large, slow-entry) checked
        | inl (s_small, n_small, v_small, bytes) ↦
            let small_or : ltb (bit_or (bit_or s n) v) 128 ≡ true =
              lt→ltb _ 128 (or-lt 7 (bit_or s n) v (or-lt 7 s n s_small n_small) v_small) in
            rw (long_enough, bytes, small_or) checked
      ]
