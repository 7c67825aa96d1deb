-- ===== src/Log/Reader/Rounds.antt =====
-- What one round of the loop of `ReadRecord` does with a fragment.
use squirrel.Prelude.{ℕ, suc, ◌≡◌, refl, Bool, true, false}
use squirrel.Prelude.{some, List, [], ◌++◌, not}
use squirrel.Crc32c.{Crc}
use squirrel.Env.{SequentialFile}
use squirrel.Log.Format.{RecordType}
use squirrel.Log.Writer.{fragment_type}
use squirrel.Log.Reader.Physical.{ReaderOptions, Reader}
use squirrel.Log.Reader.Record.{
  Assembly, again, returned, round, dispatch, on_full, on_first, on_middle, on_last,
  close_open_record,
}
use squirrel.Log.Reader.Physical.{read_physical_record}
use squirrel.Log.Reader.Record.{read_loop, read_round, after_round, physical_record_offset}

module _ (c : Crc) (s : SequentialFile) (o : ReaderOptions) where
  -- A reader that has no report to make and waits for no fresh record.
  pub record Clean (r r' : Reader c s o) : Type 0 where
    pub reports_eq : r'.reports ≡ r.reports
    pub resyncing_eq : r'.resyncing ≡ false

  pub loop_again :
      (fuel : ℕ) (a a' : Assembly c s o) (t : RecordType) (ptr : List ℕ) (r : Reader c s o)
      → read_physical_record c s o a.fragment a.reader ≡ some (t, ptr, r)
      → round c s o t (record a { reader = r; fragment = ptr }) ≡ again a'
      → read_loop c s o (suc fuel) a ≡ read_loop c s o fuel a'
  unfolding read_loop read_round after_round
  loop_again fuel a a' t ptr r e g = rw (e, g) refl

  pub loop_returned :
      (fuel : ℕ) (a : Assembly c s o) (t : RecordType) (ptr : List ℕ) (r : Reader c s o)
      → (found : Bool) (result : List ℕ) (r' : Reader c s o)
      → read_physical_record c s o a.fragment a.reader ≡ some (t, ptr, r)
      → round c s o t (record a { reader = r; fragment = ptr }) ≡ returned found result r'
      → read_loop c s o (suc fuel) a ≡ some (found, result, r')
  unfolding read_loop read_round after_round
  loop_returned fuel a t ptr r found result r' e g = rw (e, g) refl

  -- The last fragment of a record ends it.
  pub round-end :
      (begin : Bool) (a : Assembly c s o)
      → a.reader.resyncing ≡ false
      → a.in_fragmented_record ≡ not begin
      → (begin ≡ true → a.scratch ≡ [])
      → (offset : ℕ) × (round c s o (fragment_type begin true) a
          ≡ returned true
              (a.scratch ++ a.fragment)
              (record a.reader { last_record_offset = offset }))
  unfolding round dispatch on_full on_last close_open_record
  round-end true a quiet e fresh = (physical_record_offset c s o a, simp (quiet, e, fresh refl))
  round-end false a quiet e fresh = (a.prospective_record_offset, simp (quiet, e))

  -- Any other is added to what has been read of it.
  pub round-more :
      (begin : Bool) (a : Assembly c s o)
      → a.reader.resyncing ≡ false
      → a.in_fragmented_record ≡ not begin
      → (begin ≡ true → a.scratch ≡ [])
      → (offset : ℕ) × (round c s o (fragment_type begin false) a
          ≡ again (record a {
            scratch = a.scratch ++ a.fragment;
            in_fragmented_record = true;
            prospective_record_offset = offset;
          }))
  unfolding round dispatch on_first on_middle close_open_record
  round-more true a quiet e fresh = (physical_record_offset c s o a, simp (quiet, e, fresh refl))
  round-more false a quiet e fresh = (a.prospective_record_offset, simp (quiet, e))
