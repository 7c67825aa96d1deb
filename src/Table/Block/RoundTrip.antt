-- ===== src/Table/Block/RoundTrip.antt =====
-- A block that a builder finished is scanned.
use squirrel.Prelude.{
  ℕ, zero, suc, ◌+◌, ◌-◌, ◌*◌, ◌%◌, ◌^◌, ◌<◌, ◌≡◌, refl, ap, sym, ◌∙◌, subst, arith,
}
use squirrel.Prelude.{
  List, [], ◌∷◌, ◌++◌, length, take, drop, ltb, All, append_assoc, append-nil, Bool-cases, inl, inr,
}
use squirrel.Prelude.{length-append, take-length_append, drop-length_append}
use squirrel.Coding.{little_endian, put_fixed32, native_bytes, decode_fixed32}
use squirrel.Coding.Fixed.{encode_fixed32_portable, decode_native32, length-native_bytes}
use squirrel.Table.BlockBuilder.{BlockBuilder, new_block_builder, add, finish, put_restarts}
use squirrel.Table.Block.Entries.{add-decode_entry}
use squirrel.Table.Block.Iter.{
  new_block, num_restarts_of, new_iter, seek_to_first, seek_to_restart_point, get_restart_point,
  next_entry_offset,
}
use squirrel.Table.Block.Scan.{Pair, Encoded, done, entry, Ahead, pairs_from, scan-Encoded}

-- Adds the pairs in order.
unfoldable pub add_pairs : ℕ → List Pair → BlockBuilder → BlockBuilder
add_pairs interval [] b = b
add_pairs interval ((key, value) ∷ pairs) b = add_pairs interval pairs (add interval key value b)

put_fixed32-bytes : (dst : List ℕ) (v : ℕ) → put_fixed32 dst v ≡ dst ++ native_bytes 4 v
unfolding put_fixed32
put_fixed32-bytes dst v = rw encode_fixed32_portable

put_restarts-append :
    (dst rs : List ℕ)
    → (tail : List ℕ) × (put_restarts dst rs ≡ dst ++ tail) × (length tail ≡ 4 * length rs)
unfolding put_restarts
put_restarts-append dst [] = ([], sym (append-nil dst), omega arith)
put_restarts-append dst (r ∷ rs) =
    let (tail, e, size) = put_restarts-append (put_fixed32 dst r) rs in
    (
      native_bytes 4 r ++ tail,
      e ∙ ap (λ l. l ++ tail) (put_fixed32-bytes dst r) ∙ append_assoc dst (native_bytes 4 r) tail,
      omega (arith, size, length-append (native_bytes 4 r) tail, length-native_bytes 4 r),
    )

-- The first restart point stays where it is.
add-first_restart :
    (interval : ℕ) (key value : List ℕ) (b : BlockBuilder) (more : List ℕ)
    → b.restarts ≡ zero ∷ more
    → (more' : List ℕ) × ((add interval key value b).restarts ≡ zero ∷ more')
unfolding add
add-first_restart interval key value b more e = elim (Bool-cases (ltb b.counter interval)) [
  | inl compress ↦ (more, simp (compress, e))
  | inr restart ↦ (more ++ (length b.buffer % 2 ^ 32 ∷ []), simp (restart, e))
]

add_pairs-first_restart :
    (interval : ℕ) (pairs : List Pair) (b : BlockBuilder) (more : List ℕ)
    → b.restarts ≡ zero ∷ more
    → (more' : List ℕ) × ((add_pairs interval pairs b).restarts ≡ zero ∷ more')
unfolding add_pairs
add_pairs-first_restart interval [] b more e = (more, e)
add_pairs-first_restart interval ((key, value) ∷ pairs) b more e =
    let (more1, e1) = add-first_restart interval key value b more e in
    add_pairs-first_restart interval pairs (add interval key value b) more1 e1

-- The pairs fit in a uint32_t each, with room to spare.
abbrev pub AreSmall : List Pair → Type 0
AreSmall pairs = All (λ (p : Pair). length p.0 + length p.1 < 2 ^ 31) pairs

add_pairs-Encoded :
    (interval : ℕ) (pairs : List Pair) (b : BlockBuilder)
    → AreSmall pairs
    → length (add_pairs interval pairs b).buffer < 2 ^ 31
    → (bytes : List ℕ) × ((add_pairs interval pairs b).buffer ≡ b.buffer ++ bytes)
      × Encoded b.last_key pairs bytes
unfolding add_pairs
add_pairs-Encoded interval [] b small bound = ([], sym (append-nil b.buffer), done b.last_key)
add_pairs-Encoded interval ((key, value) ∷ pairs) b small bound =
    let b1 = add interval key value b in
    let (rest, grown, encoded) = add_pairs-Encoded interval pairs b1 small.1 bound in
    let (bytes, e, grown1, last, some_bytes, decoded, shorter, good) =
      add-decode_entry interval key value b rest
        (omega (arith, small.0, bound, ap length grown, length-append b1.buffer rest)) in
    (
      bytes ++ rest,
      grown ∙ ap (λ l. l ++ rest) grown1 ∙ append_assoc b.buffer bytes rest,
      entry b.last_key key value pairs bytes rest e some_bytes decoded shorter good
          (subst (λ k. Encoded k pairs rest) last encoded),
    )

-- A block, read with the restart points that it has itself.
module _ (interval : ℕ) (pairs : List Pair) where
  abbrev built : BlockBuilder
  built = add_pairs interval pairs new_block_builder

  abbrev block_of : List ℕ
  block_of = (finish built).buffer

  -- The entries, the first restart point, the others, and their number.
  Layout : Type 0
  Layout =
      (tail : List ℕ) × (block_of
        ≡ built.buffer
          ++ (native_bytes 4 0 ++ (tail ++ native_bytes 4 (length built.restarts % 2 ^ 32))))
      × (length tail + 4 ≡ 4 * length built.restarts)

  block_of-Layout : Layout
  unfolding Layout finish put_restarts
  block_of-Layout =
      let (more, e) = add_pairs-first_restart interval pairs new_block_builder [] refl in
      let (tail, f, size) = put_restarts-append (put_fixed32 built.buffer 0) more in
      let count = native_bytes 4 (length built.restarts % 2 ^ 32) in
      (
        tail,
        put_fixed32-bytes (put_restarts built.buffer built.restarts)
              (length built.restarts % 2 ^ 32)
            ∙ ap (λ rs. put_restarts built.buffer rs ++ count) e
            ∙ ap (λ l. l ++ count) f
            ∙ ap (λ l. (l ++ tail) ++ count) (put_fixed32-bytes built.buffer 0)
            ∙ append_assoc (built.buffer ++ native_bytes 4 0) tail count
            ∙ append_assoc built.buffer (native_bytes 4 0) (tail ++ count),
        omega (arith, size, ap length e),
      )

  module _ (small : length block_of < 2 ^ 31) where
    sizes : length built.buffer + 4 * length built.restarts + 4 ≡ length block_of
    unfolding Layout
    sizes =
        let (tail, e, size) = block_of-Layout in
        let count = native_bytes 4 (length built.restarts % 2 ^ 32) in
        omega (
          arith,
          size,
          ap length e,
          length-append built.buffer (native_bytes 4 0 ++ (tail ++ count)),
          length-append (native_bytes 4 0) (tail ++ count),
          length-append tail count,
          length-native_bytes 4 0,
          length-native_bytes 4 (length built.restarts % 2 ^ 32),
        )

    first_restart : decode_fixed32 little_endian (drop (length built.buffer + 0 * 4) block_of) ≡ 0
    unfolding Layout
    first_restart =
        let (tail, e, size) = block_of-Layout in
        let count = native_bytes 4 (length built.restarts % 2 ^ 32) in
        let at : length built.buffer + 0 * 4 ≡ length built.buffer = omega arith in
        rw (at, e, drop-length_append built.buffer (native_bytes 4 0 ++ (tail ++ count)))
          (decode_native32 little_endian 0 (tail ++ count))

    num_restarts-block : num_restarts_of block_of ≡ length built.restarts
    unfolding Layout
    num_restarts-block =
        let (tail, e, size) = block_of-Layout in
        let n = length built.restarts in
        let count = native_bytes 4 (n % 2 ^ 32) in
        let front = built.buffer ++ (native_bytes 4 0 ++ tail) in
        let split : block_of ≡ front ++ count =
          e
          ∙ ap (λ l. built.buffer ++ l) (sym (append_assoc (native_bytes 4 0) tail count))
          ∙ sym (append_assoc built.buffer (native_bytes 4 0 ++ tail) count) in
        let at : length block_of - 4 ≡ length front =
          omega (
            arith,
            ap length split,
            length-append front count,
            length-native_bytes 4 (n % 2 ^ 32),
          ) in
        let last : drop (length block_of - 4) block_of ≡ count =
          ap (λ k. drop k block_of) at
          ∙ ap (drop (length front)) split
          ∙ drop-length_append front count in
        ap (decode_fixed32 little_endian) (last ∙ sym (append-nil count))
        ∙ decode_native32 little_endian (n % 2 ^ 32) []
        ∙ omega (arith, sizes, small)

    restart_offset-block : (new_block block_of).restart_offset ≡ length built.buffer
    unfolding new_block
    restart_offset-block = ground (arith, num_restarts-block, sizes, small)

    first-Ahead :
        (bytes : List ℕ) (n : ℕ)
        → built.buffer ≡ bytes
        → Ahead block_of (length built.buffer) n [] bytes (
            seek_to_restart_point block_of
              (length built.buffer)
              n
              0
              (new_iter block_of (length built.buffer) n))
    unfolding Layout seek_to_restart_point next_entry_offset get_restart_point
    first-Ahead bytes n same =
        let (tail, e, size) = block_of-Layout in
        let behind =
          native_bytes 4 0 ++ (tail ++ native_bytes 4 (length built.restarts % 2 ^ 32)) in
        let zero_offset : (decode_fixed32 little_endian
                  (drop (length built.buffer + 0 * 4) block_of)
                + 0)
              % 2 ^ 32
            ≡ 0 =
          omega (arith, first_restart) in
        record {
          key_eq = refl;
          offset_eq = omega (arith, zero_offset, ap length same);
          bytes_eq =
              ap (λ k. take (length built.buffer - k) (drop k block_of)) zero_offset
              ∙ ap (λ k. take k block_of) {x = length built.buffer - 0} (omega arith)
              ∙ ap (take (length built.buffer)) e
              ∙ take-length_append built.buffer behind
              ∙ same;
        }

-- The pairs that were added to an empty builder, in any order of keys and with any restart
-- interval, are what a client reads from the block that `Finish` returned: with the restart array
-- where the block says it is, from `SeekToFirst` on, as long as the iterator is valid; if the block
-- and each pair are shorter than 2^31 bytes.
pub block_round_trip :
    (interval : ℕ) (pairs : List Pair)
    → AreSmall pairs
    → length (finish (add_pairs interval pairs new_block_builder)).buffer < 2 ^ 31
    → let contents = (finish (add_pairs interval pairs new_block_builder)).buffer in
      let restarts = (new_block contents).restart_offset in
      let n = num_restarts_of contents in
      pairs_from contents restarts n
        (suc (length pairs))
        (seek_to_first contents restarts n (new_iter contents restarts n))
      ≡ pairs
block_round_trip interval pairs few small =
    let contents = block_of interval pairs in
    let b = built interval pairs in
    let n = num_restarts_of contents in
    let (bytes, grown, encoded) =
      add_pairs-Encoded interval pairs new_block_builder few
        (omega (arith, sizes interval pairs small, small)) in
    subst
      (λ restarts.
        pairs_from contents restarts n (suc (length pairs))
          (seek_to_first contents restarts n (new_iter contents restarts n))
        ≡ pairs)
      (sym (restart_offset-block interval pairs small))
      (scan-Encoded contents (length b.buffer) n (omega (arith, sizes interval pairs small, small))
        [] pairs bytes
        (seek_to_restart_point contents (length b.buffer) n 0
          (new_iter contents (length b.buffer) n))
        encoded (first-Ahead interval pairs small bytes n grown))
