-- ===== src/Log/Reader/RoundTrip.antt =====
-- Reading back what the writer has laid down.
use squirrel.Prelude.{
  ℕ, zero, suc, ◌+◌, ◌≤◌, ◌<◌, ◌≡◌, refl, ap, ◌∙◌, subst, arith, Bool, true, false,
}
use squirrel.Prelude.{some, List, [], ◌++◌, ltb, not}
use squirrel.Prelude.{length, ge→ltb, append_assoc, length-append}
use squirrel.Crc32c.{Crc}
use squirrel.Env.{SequentialFile, IsReadable}
use squirrel.Log.Format.{block_size, header_size}
use squirrel.Log.Writer.{fragment_type}
use squirrel.Log.Layout.{frame, start, padding, room, rounds, Laid, whole, cut}
use squirrel.Log.Reader.Physical.{ReaderOptions, Reader}
use squirrel.Log.Reader.Record.{Assembly, returned, round, dispatch}
use squirrel.Log.Reader.Physical.{eof_code}
use squirrel.Log.Reader.Record.{read_loop, read_record, ReadResult}
use squirrel.Log.Reader.Blocks.{At}
use squirrel.Log.Reader.Frames.{read-frame, read-end}
use squirrel.Log.Reader.Rounds.{Clean, loop_again, loop_returned, round-end, round-more}

module _ (c : Crc) (s : SequentialFile) (o : ReaderOptions) (good : IsReadable s) where
  -- What a call of the loop comes to where the rest of a record lies ahead.
  abbrev Reads : Assembly c s o → List ℕ → List ℕ → ℕ → ReadResult c s o → Type 0
  Reads a payload more o' result =
      (r' : Reader c s o) × (result ≡ some (true, a.scratch ++ payload, r'))
      × At c s o good o' more r'
      × Clean c s o a.reader r'

  -- An assembly that waits for the rest of a record.
  record Waiting (begin : Bool) (a : Assembly c s o) : Type 0 where
    pub quiet : a.reader.resyncing ≡ false
    pub opened : a.in_fragmented_record ≡ not begin
    pub fresh : begin ≡ true → a.scratch ≡ []

  read_whole :
      (fuel o1 : ℕ) (begin : Bool) (payload more : List ℕ) (a : Assembly c s o)
      → length payload ≤ room o1
      → o1 ≤ block_size
      → At c s o good o1
          ((padding o1 ++ frame c (fragment_type begin true) payload) ++ more)
          a.reader
      → Waiting begin a
      → o.initial_offset ≡ zero
      → Reads a payload more
          (start o1 + header_size + length payload)
          (read_loop c s o (suc fuel) a)
  read_whole fuel o1 begin payload more a fits h at waits no_offset =
      let t = fragment_type begin true in
      let at' =
        subst (λ l. At c s o good o1 l a.reader)
          (append_assoc (padding o1) (frame c t payload) more) at in
      let (r, e, at1, still) =
        read-frame c s o good a.fragment o1 t payload more a.reader h at' fits (ground arith)
          (ground arith) no_offset in
      let (offset, ended) =
        round-end c s o begin (record a { reader = r; fragment = payload })
          (still.resyncing_eq ∙ waits.quiet) waits.opened waits.fresh in
      (
        record r { last_record_offset = offset },
        loop_returned c s o fuel a t payload r true (a.scratch ++ payload) _ e ended,
        record {
          buffer_eq = at1.buffer_eq;
          left_eq = at1.left_eq;
          full = at1.full;
          done = at1.done;
        },
        record { reports_eq = still.reports_eq; resyncing_eq = still.resyncing_eq ∙ waits.quiet },
      )

  -- A fragment that does not end its record: what is left is read by the rounds that follow.
  read_cut :
      (fuel o1 o' : ℕ) (begin : Bool) (front rest bytes more : List ℕ) (a : Assembly c s o)
      → length front ≡ room o1
      → o1 ≤ block_size
      → At c s o good o1
          ((padding o1 ++ (frame c (fragment_type begin false) front ++ bytes)) ++ more)
          a.reader
      → Waiting begin a
      → o.initial_offset ≡ zero
      → ((b : Assembly c s o)
          → At c s o good block_size (bytes ++ more) b.reader
          → Waiting false b
          → Reads b rest more o' (read_loop c s o fuel b))
      → Reads a (front ++ rest) more o' (read_loop c s o (suc fuel) a)
  read_cut fuel o1 o' begin front rest bytes more a full h at waits no_offset next =
      let t = fragment_type begin false in
      let at' =
        subst (λ l. At c s o good o1 l a.reader)
          (append_assoc (padding o1) (frame c t front ++ bytes) more
            ∙ ap (λ l. padding o1 ++ l) (append_assoc (frame c t front) bytes more))
          at in
      let (r, e, at1, still) =
        read-frame c s o good a.fragment o1 t front (bytes ++ more) a.reader h at'
          (omega (arith, full)) (ground arith) (ground arith) no_offset in
      let (offset, added) =
        round-more c s o begin (record a { reader = r; fragment = front })
          (still.resyncing_eq ∙ waits.quiet) waits.opened waits.fresh in
      let b = record a {
        reader = r;
        fragment = front;
        scratch = a.scratch ++ front;
        in_fragmented_record = true;
        prospective_record_offset = offset;
      } in
      let at_end : start o1 + header_size + length front ≡ block_size = ground arith in
      let (r', e', at2, clean) =
        next b (subst (λ k. At c s o good k (bytes ++ more) r) at_end at1) (record {
          quiet = still.resyncing_eq ∙ waits.quiet;
          opened = refl;
          fresh = λ e. ground arith;
        }) in
      (
        r',
        loop_again c s o fuel a b t front r e added
            ∙ e'
            ∙ ap (λ l. some (true, l, r')) (append_assoc a.scratch front rest),
        at2,
        record {
          reports_eq = clean.reports_eq ∙ still.reports_eq;
          resyncing_eq = clean.resyncing_eq;
        },
      )

  read_loop-Laid :
      (fuel o1 : ℕ) (begin : Bool) (payload bytes : List ℕ) (o' : ℕ) (more : List ℕ)
      (a : Assembly c s o)
      → Laid c o1 begin payload bytes o'
      → o1 ≤ block_size
      → At c s o good o1 (bytes ++ more) a.reader
      → Waiting begin a
      → o.initial_offset ≡ zero
      → rounds o1 payload ≤ fuel
      → Reads a payload more o' (read_loop c s o fuel a)
  read_loop-Laid zero o1 begin payload bytes o' more a laid h at waits no_offset enough =
      absurd (ground arith)
  read_loop-Laid (suc fuel) _ _ _ _ _ more a (whole o1 begin payload fits) h at waits no_offset
        enough =
      read_whole fuel o1 begin payload more a fits h at waits no_offset
  read_loop-Laid (suc fuel) _ _ _ _ _ more a (cut o1 begin front rest bytes o' full some_left laid)
        h at waits no_offset enough =
      read_cut fuel o1 o' begin front rest bytes more a full h at waits no_offset (λ b at_b waits_b.
        read_loop-Laid fuel block_size false rest bytes o' more b laid (omega arith) at_b waits_b
          no_offset (ground (arith, length-append front rest)))

  abbrev fresh_assembly : Reader c s o → Assembly c s o
  fresh_assembly r = record {
    reader = r;
    scratch = [];
    in_fragmented_record = false;
    prospective_record_offset = 0;
    fragment = [];
  }

  read_record-start :
      (fuel : ℕ) (r : Reader c s o)
      → o.initial_offset ≡ zero
      → read_record c s o fuel r ≡ read_loop c s o fuel (fresh_assembly r)
  unfolding read_record
  read_record-start fuel r no_offset =
      let here : ltb r.last_record_offset o.initial_offset ≡ false =
        ge→ltb r.last_record_offset o.initial_offset (omega (arith, no_offset)) in
      simp here

  -- A reader without an initial offset, at a record's first fragment, reads the record and stands
  -- behind it, however the record is cut into fragments and blocks; it reports nothing.
  pub read_record-Laid :
      (fuel o1 : ℕ) (payload bytes : List ℕ) (o' : ℕ) (more : List ℕ) (r : Reader c s o)
      → Laid c o1 true payload bytes o'
      → o1 ≤ block_size
      → At c s o good o1 (bytes ++ more) r
      → r.resyncing ≡ false
      → o.initial_offset ≡ zero
      → length payload + 2 ≤ fuel
      → (r' : Reader c s o) × (read_record c s o fuel r ≡ some (true, payload, r'))
        × At c s o good o' more r'
        × Clean c s o r r'
  read_record-Laid fuel o1 payload bytes o' more r laid h at quiet no_offset enough =
      let a = fresh_assembly r in
      let waiting : Waiting true a = record { quiet = quiet; opened = refl; fresh = λ e. refl } in
      let (r', e, at', clean) =
        read_loop-Laid fuel o1 true payload bytes o' more a laid h at waiting no_offset
          (ground arith) in
      (r', read_record-start fuel r no_offset ∙ e, at', clean)

  round-eof :
      (a : Assembly c s o)
      → a.reader.resyncing ≡ false
      → round c s o eof_code a ≡ returned false [] a.reader
  unfolding round dispatch
  round-eof a e = simp e

  -- At the end of the file it returns false.
  pub read_record-end :
      (fuel p : ℕ) (r : Reader c s o)
      → At c s o good p [] r
      → r.resyncing ≡ false
      → o.initial_offset ≡ zero
      → 0 < fuel
      → (r' : Reader c s o) × (read_record c s o fuel r ≡ some (false, [], r')) × Clean c s o r r'
  read_record-end zero p r at quiet no_offset h = absurd (omega (arith, h))
  read_record-end (suc fuel) p r at quiet no_offset h =
      let a = fresh_assembly r in
      let (r', e, still) = read-end c s o good [] p r at in
      let ended =
        round-eof (record a { reader = r'; fragment = [] }) (still.resyncing_eq ∙ quiet) in
      (
        r',
        read_record-start (suc fuel) r no_offset
            ∙ loop_returned c s o fuel a eof_code [] r' false [] r' e ended,
        record { reports_eq = still.reports_eq; resyncing_eq = still.resyncing_eq ∙ quiet },
      )
