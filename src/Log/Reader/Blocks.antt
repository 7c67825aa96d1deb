-- ===== src/Log/Reader/Blocks.antt =====
-- Reading physical records from a file that is read block by block.
use squirrel.Prelude.{
  ℕ, zero, suc, ◌+◌, ◌-◌, ◌%◌, ◌^◌, ◌≤◌, ◌<◌, ◌≡◌, refl, ap, sym, ◌∙◌, arith, Bool, true, false,
}
use squirrel.Prelude.{some, List, [], ◌++◌, ltb, if◌then◌else◌, Bool-cases, inl, inr}
use squirrel.Prelude.{length, take, drop, length-append, drop-length_append, ge→ltb, lt→ltb}
use squirrel.Prelude.{
  take-append, drop-append, length-drop, drop-of_le, ltb→ge, ltb→lt, take-is_full, take-is_short,
}
use squirrel.Status.{ok}
use squirrel.Crc32c.{Crc}
use squirrel.Env.{SequentialFile, IsReadable}
use squirrel.Log.Format.{RecordType, block_size, header_size}
use squirrel.Log.Layout.{frame}
use squirrel.Log.Reader.Physical.{ReaderOptions, Reader, parse_header, read_block, physical_loop}
use squirrel.Log.Reader.Physical.{eof_code}
use squirrel.Log.Reader.Parse.{parse_frame, length-frame}

or_false : (b e : Bool) → (if b then true else e) ≡ false → b ≡ false
or_false b e h = ground arith

or_true : (b e : Bool) → e ≡ false → (if b then true else e) ≡ true → b ≡ true
or_true b e g h = ground arith

module _ (c : Crc) (s : SequentialFile) (o : ReaderOptions) (good : IsReadable s) where
  -- The reader stands at offset `p` of a block, `pending` is what is still to be read, and the
  -- buffer holds the part of it that lies in the block.
  pub record At (p : ℕ) (pending : List ℕ) (r : Reader c s o) : Type 0 where
    pub buffer_eq : r.buffer ≡ take (block_size - p) pending
    pub left_eq : good.left r.source ≡ drop (block_size - p) pending
    pub full : r.eof ≡ false → length r.buffer ≡ block_size - p
    pub done : r.eof ≡ true → good.left r.source ≡ []

  -- What reading leaves alone.
  pub record Quiet (r r' : Reader c s o) : Type 0 where
    pub reports_eq : r'.reports ≡ r.reports
    pub resyncing_eq : r'.resyncing ≡ r.resyncing

  pub loop_again :
      (fuel : ℕ) (fragment : List ℕ) (r r1 : Reader c s o)
      → length r.buffer < header_size
      → r.eof ≡ false
      → read_block c s o r ≡ (true, r1)
      → physical_loop c s o (suc fuel) fragment r ≡ physical_loop c s o fuel fragment r1
  unfolding physical_loop
  loop_again fuel fragment r r1 h e g = simp (lt→ltb (length r.buffer) header_size h, e, g)

  pub loop_eof :
      (fuel : ℕ) (fragment : List ℕ) (r : Reader c s o)
      → length r.buffer < header_size
      → r.eof ≡ true
      → physical_loop c s o (suc fuel) fragment r
        ≡ some (eof_code, fragment, record r { buffer = [] })
  unfolding physical_loop
  loop_eof fuel fragment r h e = simp (lt→ltb (length r.buffer) header_size h, e)

  pub loop_parse :
      (fuel : ℕ) (fragment : List ℕ) (r : Reader c s o)
      → header_size ≤ length r.buffer
      → physical_loop c s o (suc fuel) fragment r ≡ some (parse_header c s o fragment r)
  unfolding physical_loop
  loop_parse fuel fragment r h = simp (ge→ltb (length r.buffer) header_size h)

  -- The reader after a read that succeeded.
  filled : Reader c s o → List ℕ → s.File → Reader c s o
  filled r buffer source = record r {
    source = source;
    buffer = buffer;
    end_of_buffer_offset = (r.end_of_buffer_offset + length buffer) % 2 ^ 64;
    eof = if ltb (length buffer) block_size then true else r.eof;
  }

  read_block-filled :
      (r : Reader c s o) (buffer : List ℕ) (source : s.File)
      → s.read block_size r.source ≡ (ok, buffer, source)
      → read_block c s o r ≡ (true, filled r buffer source)
  unfolding read_block filled
  read_block-filled r buffer source e = elim (Bool-cases (ltb (length buffer) block_size)) [
    | inl short ↦ simp (e, short)
    | inr whole ↦ simp (e, whole)
  ]

  filled-At :
      (r : Reader c s o) (pending : List ℕ) (source : s.File)
      → r.eof ≡ false
      → good.left source ≡ drop block_size pending
      → At 0 pending (filled r (take block_size pending) source)
  unfolding filled
  filled-At r pending source e left =
      let test = ltb (length (take block_size pending)) block_size in
      record {
        buffer_eq = refl;
        left_eq = left;
        full = λ h. take-is_full block_size pending (ltb→ge _ block_size (or_false test r.eof h));
        done = λ h.
            left
            ∙ drop-of_le block_size pending
                (take-is_short block_size pending (ltb→lt _ block_size (or_true test r.eof e h)));
      }

  -- A frame ahead in the block is read.
  pub parse-At :
      (fragment : List ℕ) (p : ℕ) (t : RecordType) (ptr more : List ℕ) (r : Reader c s o)
      → At p (frame c t ptr ++ more) r
      → p + header_size + length ptr ≤ block_size
      → 0 < t
      → t < 128
      → o.initial_offset ≡ zero
      → (r' : Reader c s o) × (parse_header c s o fragment r ≡ (t, ptr, r'))
        × At (p + header_size + length ptr) more r'
        × Quiet r r'
  parse-At fragment p t ptr more r at fits pos char no_offset =
      let n = block_size - p in
      let fr = frame c t ptr in
      let size : length fr ≡ header_size + length ptr = length-frame c t ptr in
      let n' : n - length fr ≡ block_size - (p + header_size + length ptr) = omega (arith, size) in
      let head : r.buffer ≡ fr ++ take (n - length fr) more =
        at.buffer_eq ∙ take-append n fr more (omega (arith, size)) in
      let rest = take (n - length fr) more in
      (
        record r { buffer = rest },
        parse_frame c s o fragment r t ptr rest head (omega arith) pos char no_offset,
        record {
          buffer_eq = ap (λ k. take k more) n';
          left_eq =
              at.left_eq ∙ drop-append n fr more (omega (arith, size)) ∙ ap (λ k. drop k more) n';
          full = λ h. omega (arith, at.full h, ap length head, length-append fr rest, size);
          done = at.done;
        },
        record { reports_eq = refl; resyncing_eq = refl },
      )

  -- The zeros at the end of a block are dropped, and the next block is read.
  pub refill-At :
      (p : ℕ) (pad pending : List ℕ) (r : Reader c s o)
      → At p (pad ++ pending) r
      → length pad ≡ block_size - p
      → r.eof ≡ false
      → (r' : Reader c s o) × (read_block c s o r ≡ (true, r')) × At 0 pending r' × Quiet r r'
  refill-At p pad pending r at e not_eof =
      let (source, read, left) = good.read_ok block_size r.source in
      let ahead : good.left r.source ≡ pending =
        at.left_eq ∙ ap (λ k. drop k (pad ++ pending)) (sym e) ∙ drop-length_append pad pending in
      let buffer = take block_size pending in
      (
        filled r buffer source,
        read_block-filled r buffer source (read ∙ ap (λ l. (ok, take block_size l, source)) ahead),
        filled-At r pending source not_eof (left ∙ ap (drop block_size) ahead),
        unfold filled in record { reports_eq = refl; resyncing_eq = refl },
      )

  pub Quiet-trans : {r1 r2 r3 : Reader c s o} → Quiet r1 r2 → Quiet r2 r3 → Quiet r1 r3
  Quiet-trans a b = record {
    reports_eq = b.reports_eq ∙ a.reports_eq;
    resyncing_eq = b.resyncing_eq ∙ a.resyncing_eq;
  }

  pub some_left :
      (p : ℕ) (pad pending : List ℕ) (r : Reader c s o)
      → At p (pad ++ pending) r
      → length pad ≡ block_size - p
      → 0 < length pending
      → r.eof ≡ false
  some_left p pad pending r at e h = elim (Bool-cases r.eof) [
    | inr no_eof ↦ no_eof
    | inl at_eof ↦ absurd (
        omega (
          arith,
          ap length (at.done at_eof),
          ap length at.left_eq,
          length-drop (block_size - p) (pad ++ pending),
          length-append pad pending,
        ))
  ]
