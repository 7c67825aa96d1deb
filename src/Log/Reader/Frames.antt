-- ===== src/Log/Reader/Frames.antt =====
-- Reading the next physical record, in this block or in the one behind it.
use squirrel.Prelude.{ℕ, zero, suc, ◌+◌, ◌-◌, ◌≤◌, ◌<◌, ◌≡◌, refl, ap, ◌∙◌, arith, true}
use squirrel.Prelude.{some, List, [], ◌++◌, ltb, Bool-cases, inl, inr}
use squirrel.Prelude.{length, replicate, length-append}
use squirrel.Prelude.{length-take, length-replicate, ltb→lt}
use squirrel.Crc32c.{Crc}
use squirrel.Env.{SequentialFile, IsReadable}
use squirrel.Log.Format.{RecordType, block_size, header_size}
use squirrel.Log.Layout.{frame, start, padding, room}
use squirrel.Log.Reader.Physical.{ReaderOptions, Reader, physical_loop}
use squirrel.Log.Reader.Physical.{read_physical_record, eof_code}
use squirrel.Log.Reader.Parse.{length-frame}
use squirrel.Log.Reader.Blocks.{
  At, Quiet, Quiet-trans, loop_again, loop_eof, loop_parse, refill-At, parse-At, some_left,
}

module _ (c : Crc) (s : SequentialFile) (o : ReaderOptions) (good : IsReadable s) where
  -- What reading the next frame comes to.
  abbrev pub Frame : List ℕ → Reader c s o → RecordType → List ℕ → List ℕ → ℕ → Type 0
  Frame fragment r t ptr more p' =
      (r' : Reader c s o) × (read_physical_record c s o fragment r ≡ some (t, ptr, r'))
      × At c s o good p' more r'
      × Quiet c s o good r r'

  frame_here :
      (fragment : List ℕ) (p : ℕ) (t : RecordType) (ptr more : List ℕ) (r : Reader c s o)
      → At c s o good p (frame c t ptr ++ more) r
      → p + header_size + length ptr ≤ block_size
      → 0 < t
      → t < 128
      → o.initial_offset ≡ zero
      → (fuel : ℕ)
      → (r' : Reader c s o) × (physical_loop c s o (suc fuel) fragment r ≡ some (t, ptr, r'))
        × At c s o good (p + header_size + length ptr) more r'
        × Quiet c s o good r r'
  frame_here fragment p t ptr more r at fits pos char no_offset fuel =
      let (r', parsed, at', quiet) =
        parse-At c s o good fragment p t ptr more r at fits pos char no_offset in
      let size : header_size ≤ length r.buffer = omega (
        arith,
        ap length at.buffer_eq,
        length-take (block_size - p) (frame c t ptr ++ more),
        length-append (frame c t ptr) more,
        length-frame c t ptr,
      ) in
      (r', loop_parse c s o good fuel fragment r size ∙ ap some parsed, at', quiet)

  frame_next :
      (fragment : List ℕ) (p : ℕ) (pad : List ℕ) (t : RecordType) (ptr more : List ℕ)
      (r : Reader c s o)
      → At c s o good p (pad ++ (frame c t ptr ++ more)) r
      → length pad ≡ block_size - p
      → length pad < header_size
      → header_size + length ptr ≤ block_size
      → 0 < t
      → t < 128
      → o.initial_offset ≡ zero
      → Frame fragment r t ptr more (0 + header_size + length ptr)
  unfolding read_physical_record
  frame_next fragment p pad t ptr more r at e short fits pos char no_offset =
      let ahead = frame c t ptr ++ more in
      let not_eof =
        some_left c s o good p pad ahead r at e
          (omega (arith, length-append (frame c t ptr) more, length-frame c t ptr)) in
      let (r1, read, at1, quiet1) = refill-At c s o good p pad ahead r at e not_eof in
      let (r2, looped, at2, quiet2) =
        frame_here fragment 0 t ptr more r1 at1 (omega arith) pos char no_offset 0 in
      let size : length r.buffer < header_size = omega (arith, at.full not_eof) in
      (
        r2,
        loop_again c s o good 1 fragment r r1 size not_eof read ∙ looped,
        at2,
        Quiet-trans c s o good quiet1 quiet2,
      )

  -- The next frame is returned, whether it stands in this block or in the next.
  pub read-frame :
      (fragment : List ℕ) (p : ℕ) (t : RecordType) (ptr more : List ℕ) (r : Reader c s o)
      → p ≤ block_size
      → At c s o good p (padding p ++ (frame c t ptr ++ more)) r
      → length ptr ≤ room p
      → 0 < t
      → t < 128
      → o.initial_offset ≡ zero
      → Frame fragment r t ptr more (start p + header_size + length ptr)
  unfolding read_physical_record
  read-frame fragment p t ptr more r h at fits pos char no_offset =
      elim (Bool-cases (ltb (block_size - p) header_size)) [
        | inl short ↦
            let pad : List ℕ = replicate (block_size - p) 0 in
            let size : length pad ≡ block_size - p = length-replicate (block_size - p) 0 in
            rw short (
              frame_next fragment p pad t ptr more r (rw short at at) size
                (omega (arith, ltb→lt _ _ short)) (ground arith) pos char no_offset)
        | inr same ↦
            rw same (
              frame_here fragment p t ptr more r (rw same at at) (ground arith) pos char no_offset
                1)
      ]

  -- At the end of the file there is no record, however often it is asked for.
  pub read-end :
      (fragment : List ℕ) (p : ℕ) (r : Reader c s o)
      → At c s o good p [] r
      → (r' : Reader c s o) × (read_physical_record c s o fragment r
          ≡ some (eof_code, fragment, r'))
        × Quiet c s o good r r'
  unfolding read_physical_record
  read-end fragment p r at = elim (Bool-cases r.eof) [
    | inl at_eof ↦ (
      record r { buffer = [] },
      loop_eof c s o good 1 fragment r (omega (arith, empty)) at_eof,
      record { reports_eq = refl; resyncing_eq = refl },
    )
    | inr not_eof ↦
        let (r1, read, at1, quiet) =
          refill-At c s o good p [] [] r at (omega (arith, at.full not_eof, empty)) not_eof in
        let empty1 : length r1.buffer ≡ zero =
          omega (arith, ap length at1.buffer_eq, length-take block_size no_bytes) in
        let eof1 : r1.eof ≡ true = elim (Bool-cases r1.eof) [
          | inl yes_eof ↦ yes_eof
          | inr no_eof ↦ absurd (omega (arith, at1.full no_eof))
        ] in
        (
          record r1 { buffer = [] },
          loop_again c s o good 1 fragment r r1 (omega (arith, empty)) not_eof read
              ∙ loop_eof c s o good 0 fragment r1 (omega (arith, empty1)) eof1,
          record { reports_eq = quiet.reports_eq; resyncing_eq = quiet.resyncing_eq },
        )
  ]
    where
      no_bytes : List ℕ
      no_bytes = []

      empty : length r.buffer ≡ zero
      empty = omega (arith, ap length at.buffer_eq, length-take (block_size - p) no_bytes)
