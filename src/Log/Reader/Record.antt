-- ===== src/Log/Reader/Record.antt =====
-- db/log_reader.cpp: `ReadRecord`, which puts the records together from physical ones.
use squirrel.Prelude.{ℕ, zero, suc, ◌+◌, Bool, true, false}
use squirrel.Prelude.{Option, none, some, List, [], ◌++◌, ltb, ◌==◌, if◌then◌else◌}
use mathlib.Core.Option
use squirrel.Prelude.{length, codes}
use squirrel.Crc32c.{Crc}
use squirrel.Env.{SequentialFile}
use squirrel.Log.Format.{full_type, first_type, middle_type, last_type}
use squirrel.Log.Format.{header_size}
use squirrel.Log.Reader.Physical.{
  ReaderOptions, Reader, bad_record, eof_code, read_physical_record, report_corruption,
  skip_to_initial_block, sub64,
}

module _ (c : Crc) (file : SequentialFile) (o : ReaderOptions) where
  -- The variables of `ReadRecord`.
  pub record Assembly : Type 0 where
    pub reader : Reader c file o
    pub scratch : List ℕ
    pub in_fragmented_record : Bool
    pub prospective_record_offset : ℕ
    pub fragment : List ℕ

  -- What a round does: go round again, or return.
  pub data Round : Type 0 where
    again : Assembly → Round
    returned : Bool → List ℕ → Reader c file o → Round

  -- The start of a record while one is open: `text` is the reason that is reported.
  unfoldable pub close_open_record : List ℕ → Assembly → Assembly
  close_open_record text s =
      if s.in_fragmented_record
      then (if length s.scratch == 0
          then record s { in_fragmented_record = false }
          else record s { reader = report_corruption c file o (length s.scratch) text s.reader })
      else s

  unfoldable pub on_full : ℕ → Assembly → Round
  on_full offset s =
      let s1 = close_open_record (codes "partial record without end(1)") s in
      returned true s.fragment (record s1.reader { last_record_offset = offset })

  unfoldable pub on_first : ℕ → Assembly → Round
  on_first offset s =
      let s1 = close_open_record (codes "partial record without end(2)") s in
      again (record s1 {
        prospective_record_offset = offset;
        scratch = s.fragment;
        in_fragmented_record = true;
      })

  unfoldable pub on_middle : Assembly → Round
  on_middle s =
      if s.in_fragmented_record
      then again (record s { scratch = s.scratch ++ s.fragment })
      else again (record s {
        reader =
            report_corruption c file o (length s.fragment)
              (codes "missing start of fragmented record(1)") s.reader;
      })

  unfoldable pub on_last : Assembly → Round
  on_last s =
      if s.in_fragmented_record
      then returned true (s.scratch ++ s.fragment)
          (record s.reader { last_record_offset = s.prospective_record_offset })
      else again (record s {
        reader =
            report_corruption c file o (length s.fragment)
              (codes "missing start of fragmented record(2)") s.reader;
      })

  -- On kEof `record` is still the empty slice that the call began with.
  abbrev on_eof : Assembly → Round
  on_eof s = returned false [] s.reader

  unfoldable pub on_bad_record : Assembly → Round
  on_bad_record s =
      if s.in_fragmented_record
      then again (record s {
        reader =
            report_corruption c file o (length s.scratch) (codes "error in middle of record")
              s.reader;
        in_fragmented_record = false;
        scratch = [];
      })
      else again s

  -- The text of the report ends in the number, which is left out.
  unfoldable pub on_unknown : Assembly → Round
  on_unknown s =
      let open_size = if s.in_fragmented_record then length s.scratch else 0 in
      again (record s {
        reader =
            report_corruption c file o (length s.fragment + open_size)
              (codes "unknown record type ") s.reader;
        in_fragmented_record = false;
        scratch = [];
      })

  unfoldable pub dispatch : ℕ → ℕ → Assembly → Round
  dispatch record_type offset s =
      if record_type == full_type
      then on_full offset s
      else if record_type == first_type
      then on_first offset s
      else if record_type == middle_type
      then on_middle s
      else if record_type == last_type
      then on_last s
      else if record_type == eof_code
      then on_eof s
      else if record_type == bad_record
      then on_bad_record s
      else on_unknown s

  -- ReadPhysicalRecord may have only had an empty trailer remaining in its buffer, so the offset
  -- is computed from the end of the buffer.
  abbrev pub physical_record_offset : Assembly → ℕ
  physical_record_offset s =
      let r = s.reader in
      sub64 (sub64 (sub64 r.end_of_buffer_offset (length r.buffer)) header_size) (length s.fragment)

  -- The test of `resyncing_`, then the switch.
  unfoldable pub round : ℕ → Assembly → Round
  round record_type s =
      let r = s.reader in
      let offset = physical_record_offset s in
      let resynced = record s { reader = record r { resyncing = false } } in
      if r.resyncing
      then (if record_type == middle_type
          then again s
          else if record_type == last_type
          then again resynced
          else dispatch record_type offset resynced)
      else dispatch record_type offset s

  -- `none` is no result of the program: the fuel ran out.
  abbrev pub ReadResult : Type 0
  ReadResult = Option (Bool × List ℕ × Reader c file o)

  -- One round of the loop.
  unfoldable pub read_round : Assembly → Option Round
  read_round s =
      Option.map
        (λ (record_type, fragment, r).
          round record_type (record s { reader = r; fragment = fragment }))
        (read_physical_record c file o s.fragment s.reader)

  unfoldable pub after_round : (Assembly → ReadResult) → Option Round → ReadResult
  after_round loop none = none
  after_round loop (some (again s)) = loop s
  after_round loop (some (returned found result r)) = some (found, result, r)

  unfoldable pub read_loop : ℕ → Assembly → ReadResult
  read_loop zero s = none
  read_loop (suc fuel) s = after_round (read_loop fuel) (read_round s)

  unfoldable pub read_record : ℕ → Reader c file o → ReadResult
  read_record fuel r =
      let (found, r1) = skip_to_initial_block c file o r in
      let start = λ (r : Reader c file o). read_loop fuel (record {
        reader = r;
        scratch = [];
        in_fragmented_record = false;
        prospective_record_offset = 0;
        fragment = [];
      }) in
      if ltb r.last_record_offset o.initial_offset
      then (if found then start r1 else some (false, [], r1))
      else start r
