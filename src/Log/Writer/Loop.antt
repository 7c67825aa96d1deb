-- ===== src/Log/Writer/Loop.antt =====
-- On a file whose calls succeed, the writer lays its records down as `Laid` says.
use squirrel.Prelude.{
  ℕ, zero, suc, ◌+◌, ◌-◌, ◌≤◌, ◌<◌, ◌≡◌, refl, ap, sym, ◌∙◌, subst, arith, Bool, true, false,
}
use squirrel.Prelude.{
  Option, some, List, [], ◌++◌, ltb, leb, ◌==◌, if◌then◌else◌, Bool-cases, inl, inr,
}
use squirrel.Prelude.{
  length, take, drop, replicate, append_assoc, append-nil, take-append-drop, length-take,
  length-drop, take-of_le, drop-of_le,
}
use squirrel.Prelude.{lt→ltb, le→leb, leb→le}
use squirrel.Status.{Status, ok}
use squirrel.Crc32c.{Crc}
use squirrel.Env.{WritableFile, IsReliable}
use squirrel.Log.Format.{RecordType, block_size, header_size}
use squirrel.Log.Writer.{Writer, record_header, fragment_type, emit_physical_record, switch_block}
use squirrel.Log.Writer.{emit_fragment, add_loop, add_record}
use squirrel.Log.Layout.{start, padding, room, frame, rounds, Laid, whole, cut}

module _ (c : Crc) (file : WritableFile) (good : IsReliable file) where
  -- The bytes of the file that the writer writes to.
  abbrev pub written : Writer c file → List ℕ
  written w = good.contents w.dest

  emit_physical_record-written :
      (t : RecordType) (ptr : List ℕ) (w : Writer c file)
      → (w' : Writer c file) × (emit_physical_record c file t ptr w ≡ (ok, w'))
        × (written w' ≡ written w ++ frame c t ptr)
        × (w'.block_offset ≡ w.block_offset + header_size + length ptr)
  unfolding emit_physical_record
  emit_physical_record-written t ptr w =
      let (d1, e1, c1) = good.append_ok (record_header c t ptr) w.dest in
      let (d2, e2, c2) = good.append_ok ptr d1 in
      let (d3, e3, c3) = good.flush_ok d2 in
      (
        record { dest = d3; block_offset = w.block_offset + header_size + length ptr },
        rw (e1, e2, e3),
        c3 ∙ c2 ∙ rw c1 (append_assoc (good.contents w.dest) (record_header c t ptr) ptr),
        refl,
      )

  switch_block-written :
      (w : Writer c file)
      → (written (switch_block c file w) ≡ written w ++ padding w.block_offset)
        × ((switch_block c file w).block_offset ≡ start w.block_offset)
  unfolding switch_block
  switch_block-written w =
      let zeros : List ℕ = replicate (block_size - w.block_offset) 0 in
      let (d, e, cs) = good.append_ok zeros w.dest in
      elim (Bool-cases (ltb (block_size - w.block_offset) header_size)) [
        | inr stay ↦ rw stay (sym (append-nil _), refl)
        | inl switch ↦ elim (Bool-cases (ltb 0 (block_size - w.block_offset))) [
          | inl some_left ↦ rw (switch, some_left, e) (cs, refl)
          | inr full ↦
              let at_end : block_size - w.block_offset ≡ zero = ground arith in
              rw at_end (sym (append-nil _), refl)
        ]
      ]

  -- What is cut off, in the words of the specification.
  fragment_cut :
      (left : List ℕ) (n : ℕ)
      → let m = if ltb (length left) n then length left else n in
        (take m left ≡ take n left)
        × (drop m left ≡ drop n left)
        × ((length left == m) ≡ leb (length left) n)
  fragment_cut left n = elim (Bool-cases (ltb (length left) n)) [
    | inl small ↦
        rw
          (
            small,
            take-of_le (length left) left (omega arith),
            take-of_le n left (ground arith),
            drop-of_le (length left) left (omega arith),
            drop-of_le n left (ground arith),
          )
          (refl, refl, ground arith)
    | inr large ↦ rw large (refl, refl, ground arith)
  ]

  -- The effect of a round at the writer `w1` that has switched blocks, at offset `k`.
  abbrev EmittedAt : Bool → List ℕ → Writer c file → ℕ → Type 0
  EmittedAt begin left w1 k =
      let n = block_size - k - header_size in
      let avail = block_size - w1.block_offset - header_size in
      let m = if ltb (length left) avail then length left else avail in
      let emitted =
        emit_physical_record c file (fragment_type begin (length left == m)) (take m left) w1 in
      (w' : Writer c file) × ◌≡◌ {A = Status × List ℕ × Writer c file}
        (emitted.0, drop m left, emitted.1) (ok, drop n left, w')
      × (written w'
          ≡ written w1 ++ frame c (fragment_type begin (leb (length left) n)) (take n left))
      × (w'.block_offset ≡ k + header_size + length (take n left))

  fragment_at :
      (begin : Bool) (left : List ℕ) (w1 : Writer c file) → EmittedAt begin left w1 w1.block_offset
  fragment_at begin left w1 =
      let n = block_size - w1.block_offset - header_size in
      let t = fragment_type begin (leb (length left) n) in
      let (cut_take, cut_drop, cut_end) = fragment_cut left n in
      let (w', e, cs, off) = emit_physical_record-written t (take n left) w1 in
      (w', rw (cut_end, cut_take, cut_drop, e), cs, off)

  emit_fragment-written :
      (begin : Bool) (left : List ℕ) (w : Writer c file)
      → let n = room w.block_offset in
        (w' : Writer c file) × (emit_fragment c file begin left w ≡ (ok, drop n left, w'))
        × (written w'
            ≡ written w
              ++ (padding w.block_offset
                  ++ frame c (fragment_type begin (leb (length left) n)) (take n left)))
        × (w'.block_offset ≡ start w.block_offset + header_size + length (take n left))
  unfolding emit_fragment
  emit_fragment-written begin left w =
      let w1 = switch_block c file w in
      let (padded, offset) = switch_block-written w in
      let (w', e, cs, off) =
        subst (λ k. EmittedAt begin left w1 k) offset (fragment_at begin left w1) in
      (w', e, cs ∙ rw padded (append_assoc (written w) (padding w.block_offset) _), off)

  -- What `add_loop` leaves behind: the fragments of `left`, behind what the file held.
  pub record Added (begin : Bool) (left : List ℕ) (w : Writer c file)
      (result : Option (Status × Writer c file)) : Type 0 where
    pub after : Writer c file
    pub bytes : List ℕ
    pub returns : result ≡ some (ok, after)
    pub appended : written after ≡ written w ++ bytes
    pub laid : Laid c w.block_offset begin left bytes after.block_offset
    pub in_block : after.block_offset ≤ block_size

  loop_last :
      (fuel : ℕ) (begin : Bool) (left : List ℕ) (w w' : Writer c file)
      → emit_fragment c file begin left w ≡ (ok, [], w')
      → add_loop c file (suc fuel) begin left w ≡ some (ok, w')
  unfolding add_loop
  loop_last fuel begin left w w' e = rw e

  loop_more :
      (fuel : ℕ) (begin : Bool) (left rest : List ℕ) (w w' : Writer c file)
      → emit_fragment c file begin left w ≡ (ok, rest, w')
      → 0 < length rest
      → add_loop c file (suc fuel) begin left w ≡ add_loop c file fuel false rest w'
  unfolding add_loop
  loop_more fuel begin left rest w w' e h = rw (e, lt→ltb 0 (length rest) h)

  round_last :
      (fuel : ℕ) (begin : Bool) (left : List ℕ) (w : Writer c file)
      → w.block_offset ≤ block_size
      → length left ≤ room w.block_offset
      → Added begin left w (add_loop c file (suc fuel) begin left w)
  round_last fuel begin left w h fits =
      let (w', e, cs, off) = emit_fragment-written begin left w in
      let n = room w.block_offset in
      let off' : w'.block_offset ≡ start w.block_offset + header_size + length left =
        rw (take-of_le n left fits) at off in
      record {
        after = w';
        bytes = padding w.block_offset ++ frame c (fragment_type begin true) left;
        returns = loop_last fuel begin left w w' (rw (drop-of_le n left fits) at e);
        appended = rw (le→leb (length left) n fits, take-of_le n left fits) at cs;
        laid =
            subst
              (λ k.
                Laid c w.block_offset begin left
                  (padding w.block_offset ++ frame c (fragment_type begin true) left) k)
              (sym off') (whole w.block_offset begin left fits);
        in_block = ground arith;
      }

  round_more :
      (fuel : ℕ) (begin : Bool) (left rest : List ℕ) (w w' : Writer c file)
      → emit_fragment c file begin left w ≡ (ok, rest, w')
      → 0 < length rest
      → (front : List ℕ) → front ++ rest ≡ left
      → length front ≡ room w.block_offset
      → w'.block_offset ≡ block_size
      → written w'
        ≡ written w ++ (padding w.block_offset ++ frame c (fragment_type begin false) front)
      → Added false rest w' (add_loop c file fuel false rest w')
      → Added begin left w (add_loop c file (suc fuel) begin left w)
  round_more fuel begin left rest w w' e h front joined full at_end cs rec =
      let fr = frame c (fragment_type begin false) front in
      record {
        after = rec.after;
        bytes = padding w.block_offset ++ (fr ++ rec.bytes);
        returns = loop_more fuel begin left rest w w' e h ∙ rec.returns;
        appended =
            rec.appended
            ∙ ap (λ t. t ++ rec.bytes) cs
            ∙ append_assoc (written w) (padding w.block_offset ++ fr) rec.bytes
            ∙ ap (λ t. written w ++ t) (append_assoc (padding w.block_offset) fr rec.bytes);
        laid =
            subst
              (λ l.
                Laid c w.block_offset begin l (padding w.block_offset ++ (fr ++ rec.bytes))
                  rec.after.block_offset)
              joined
              (cut w.block_offset begin front rest rec.bytes rec.after.block_offset full h (
                subst (λ k. Laid c k false rest rec.bytes rec.after.block_offset) at_end rec.laid));
        in_block = rec.in_block;
      }

  pub add_loop-Added :
      (fuel : ℕ) (begin : Bool) (left : List ℕ) (w : Writer c file)
      → w.block_offset ≤ block_size
      → rounds w.block_offset left ≤ fuel
      → Added begin left w (add_loop c file fuel begin left w)
  add_loop-Added zero begin left w h enough = absurd (ground arith)
  add_loop-Added (suc fuel) begin left w h enough =
      let (w', e, cs, off) = emit_fragment-written begin left w in
      let n = room w.block_offset in
      elim (Bool-cases (leb (length left) n)) [
        | inl fits ↦ round_last fuel begin left w h (leb→le (length left) n fits)
        | inr longer ↦
            let lt : n < length left = ground arith in
            let front_length : length (take n left) ≡ n = omega (arith, length-take n left) in
            let rest_length : length (drop n left) ≡ length left - n = length-drop n left in
            let at_end : w'.block_offset ≡ block_size = ground (arith, off, front_length) in
            round_more fuel begin left (drop n left) w w' e (omega arith) (take n left)
              (take-append-drop n left) front_length at_end (rw longer at cs)
              (add_loop-Added fuel false (drop n left) w' (omega arith)
                (rw (at_end, rest_length) (ground arith)))
      ]

  -- `AddRecord` always ends, whatever the record, at a writer whose offset lies in its block and a
  -- file whose calls succeed: it returns OK, has appended the fragments of the record, laid out
  -- as `Laid` says from the writer's offset on, and leaves the offset in its block again.
  pub add_record-Added :
      (slice : List ℕ) (w : Writer c file)
      → w.block_offset ≤ block_size
      → Added true slice w (add_record c file slice w)
  unfolding add_record
  add_record-Added slice w h = add_loop-Added (length slice + 2) true slice w h (ground arith)
