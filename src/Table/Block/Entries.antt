-- ===== src/Table/Block/Entries.antt =====
-- The entries that a builder writes are decoded.
use squirrel.Prelude.{ℕ, ◌+◌, ◌-◌, ◌%◌, ◌^◌, ◌≤◌, ◌<◌, ◌≡◌, refl, ap, sym, ◌∙◌, arith}
use squirrel.Prelude.{
  some, List, [], ◌∷◌, ◌++◌, length, take, drop, ltb, ◌==◌, if◌then◌else◌, append_assoc, Bool-cases,
  inl, inr,
}
use squirrel.Prelude.{
  length-append, length-drop, take-of_le, take-append-drop, take-length_append, drop-length_append,
}
use native.Mathlib.Nat.{mod-eq_of_lt}
use squirrel.Coding.{encode_varint32, put_varint32}
use squirrel.Table.BlockBuilder.{BlockBuilder, add, shared_prefix}
use squirrel.Table.Block.{Entry, decode_entry}
use squirrel.Table.Block.Decode.{entry_of, bytes_of, length-varint32, decode-entry}

shared_prefix-bounds :
    (last key : List ℕ)
    → (shared_prefix last key ≤ length last)
      × (shared_prefix last key ≤ length key)
      × (take (shared_prefix last key) last ≡ take (shared_prefix last key) key)
unfolding shared_prefix
shared_prefix-bounds [] key = (omega arith, omega arith, refl)
shared_prefix-bounds (x ∷ last) [] = (omega arith, omega arith, refl)
shared_prefix-bounds (x ∷ last) (y ∷ key) =
    let (a, b, e) = shared_prefix-bounds last key in
    elim (Bool-cases (x == y)) [
      | inl same ↦
          let eq : x ≡ y = ground arith in
          rw same (
            omega arith,
            omega arith,
            ap (λ l. x ∷ l) e ∙ ap (λ z. z ∷ take (shared_prefix last key) key) eq,
          )
      | inr differ ↦ rw differ (omega arith, omega arith, refl)
    ]

-- How much of the last key an entry shares.
shared_of : ℕ → BlockBuilder → List ℕ → ℕ
shared_of interval b key = if ltb b.counter interval then shared_prefix b.last_key key else 0

shared_of-bounds :
    (interval : ℕ) (b : BlockBuilder) (key : List ℕ)
    → let k = shared_of interval b key in
      (k ≤ length b.last_key) × (k ≤ length key) × (take k b.last_key ≡ take k key)
unfolding shared_of
shared_of-bounds interval b key = elim (Bool-cases (ltb b.counter interval)) [
  | inl compress ↦ rw compress (shared_prefix-bounds b.last_key key)
  | inr restart ↦ rw restart (omega arith, omega arith, refl)
]

assoc5 :
    (a s n v d x : List ℕ) → ((((a ++ s) ++ n) ++ v) ++ d) ++ x ≡ a ++ (s ++ (n ++ (v ++ (d ++ x))))
assoc5 a s n v d x =
    append_assoc (((a ++ s) ++ n) ++ v) d x
    ∙ append_assoc ((a ++ s) ++ n) v (d ++ x)
    ∙ append_assoc (a ++ s) n (v ++ (d ++ x))
    ∙ append_assoc a s (n ++ (v ++ (d ++ x)))

-- What a reader that knows the last key makes of an entry: the key, the value, and what follows.
pub record Restores (last_key key value rest : List ℕ) (e : Entry) : Type 0 where
  pub shared_le : e.shared ≤ length last_key
  pub key_eq : take e.shared last_key ++ take e.non_shared e.rest ≡ key
  pub value_eq : take e.value_length (drop e.non_shared e.rest) ≡ value
  pub rest_eq : drop e.value_length (drop e.non_shared e.rest) ≡ rest
  pub size_eq : e.non_shared + e.value_length + length rest ≡ length e.rest

module _ (interval : ℕ) (key value : List ℕ) (b : BlockBuilder) (rest : List ℕ) where
  abbrev shared : ℕ
  shared = shared_of interval b key

  -- The whole of what is left of the key is added.
  delta_whole : take (length key - shared) (drop shared key) ≡ drop shared key
  delta_whole =
      take-of_le (length key - shared) (drop shared key) (omega (arith, length-drop shared key))

  abbrev after_sizes : List ℕ
  after_sizes = drop shared key ++ (value ++ rest)

  abbrev added_entry : Entry
  added_entry = entry_of shared (length key - shared) (length value) after_sizes

  length-delta : length (drop shared key) ≡ length key - shared
  length-delta = length-drop shared key

  added-Restores : Restores b.last_key key value rest added_entry
  added-Restores =
      let (le_last, le_key, same) = shared_of-bounds interval b key in
      let delta = drop shared key in
      let taken : take (length key - shared) (delta ++ (value ++ rest)) ≡ delta =
        ap (λ k. take k (delta ++ (value ++ rest))) (sym length-delta)
        ∙ take-length_append delta (value ++ rest) in
      let left : drop (length key - shared) (delta ++ (value ++ rest)) ≡ value ++ rest =
        ap (λ k. drop k (delta ++ (value ++ rest))) (sym length-delta)
        ∙ drop-length_append delta (value ++ rest) in
      record {
        shared_le = le_last;
        key_eq = rw (taken, same) (take-append-drop shared key);
        value_eq = rw left (take-length_append value rest);
        rest_eq = rw left (drop-length_append value rest);
        size_eq = omega (
          arith,
          le_key,
          length-delta,
          length-append delta (value ++ rest),
          length-append value rest,
        );
      }

  -- The bytes of the entry.
  added_bytes : List ℕ
  added_bytes =
      encode_varint32 shared
      ++ (encode_varint32 (length key - shared)
          ++ (encode_varint32 (length value) ++ (drop shared key ++ value)))

  regroup : added_bytes ++ rest ≡ bytes_of shared (length key - shared) (length value) after_sizes
  unfolding added_bytes
  regroup =
      let s = encode_varint32 shared in
      let n = encode_varint32 (length key - shared) in
      let v = encode_varint32 (length value) in
      let d = drop shared key in
      append_assoc s (n ++ (v ++ (d ++ value))) rest
      ∙ ap (λ l. s ++ l)
          (append_assoc n (v ++ (d ++ value)) rest
            ∙ ap (λ l. n ++ l)
                (append_assoc v (d ++ value) rest ∙ ap (λ l. v ++ l) (append_assoc d value rest)))

  appended_bytes :
      length key < 2 ^ 32
      → length value < 2 ^ 32
      → ((add interval key value b).buffer ≡ b.buffer ++ added_bytes)
        × ((add interval key value b).last_key ≡ key)
  unfolding add put_varint32 added_bytes shared_of
  appended_bytes hk hv =
      let (le_last, le_key, same) = shared_of-bounds interval b key in
      let k = if ltb b.counter interval then shared_prefix b.last_key key else 0 in
      let s_mod : k % 2 ^ 32 ≡ k = mod-eq_of_lt (omega (arith, le_key, hk)) in
      let n_mod : (length key - k) % 2 ^ 32 ≡ length key - k = mod-eq_of_lt (omega (arith, hk)) in
      let v_mod : length value % 2 ^ 32 ≡ length value = mod-eq_of_lt hv in
      (
        rw (s_mod, n_mod, v_mod, delta_whole)
            (assoc5 b.buffer (encode_varint32 k) (encode_varint32 (length key - k))
              (encode_varint32 (length value)) (drop k key) value),
        rw (delta_whole, same) (take-append-drop k key),
      )

  -- `Add` appends one entry to the buffer and makes the key the last key; and from that entry,
  -- with any bytes behind it, `DecodeEntry` finds what restores the key from the previous last key,
  -- the value, and what follows, and reads no further; for sizes that fit in a uint32_t.
  pub add-decode_entry :
      length key + length value + length rest < 2 ^ 32
      → (bytes : List ℕ) × (e : Entry) × ((add interval key value b).buffer ≡ b.buffer ++ bytes)
        × ((add interval key value b).last_key ≡ key)
        × (0 < length bytes)
        × (decode_entry (bytes ++ rest) ≡ some e)
        × (length e.rest ≤ length (bytes ++ rest))
        × Restores b.last_key key value rest e
  add-decode_entry h =
      let (le_last, le_key, same) = shared_of-bounds interval b key in
      let (grown, last) = appended_bytes (omega (arith, h)) (omega (arith, h)) in
      let total : length after_sizes ≡ length key - shared + (length value + length rest) = omega (
        arith,
        length-append (drop shared key) (value ++ rest),
        length-append value rest,
        length-delta,
      ) in
      let first_length = length-varint32 shared (omega (arith, le_key, h)) in
      let shorter : length after_sizes + length (encode_varint32 shared)
          ≤ length (added_bytes ++ rest) =
        omega (
          arith,
          ap length regroup,
          length-append (encode_varint32 shared) (
              encode_varint32 (length key - shared)
              ++ (encode_varint32 (length value) ++ after_sizes)),
          length-append (encode_varint32 (length key - shared))
              (encode_varint32 (length value) ++ after_sizes),
          length-append (encode_varint32 (length value)) after_sizes,
        ) in
      (
        added_bytes,
        added_entry,
        grown,
        last,
        omega (arith, shorter, length-append added_bytes rest, first_length, total),
        rw regroup (
            decode-entry shared (length key - shared) (length value) after_sizes
              (omega (arith, le_key, h)) (omega (arith, h)) (omega (arith, h))
              (omega (arith, total)) (omega (arith, total, h))),
        omega (arith, shorter),
        added-Restores,
      )
