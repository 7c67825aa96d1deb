-- ===== src/Log/Session.antt =====
-- A log from its first write to its last read: what a client does with a writer and a reader.
use squirrel.Prelude.{
  ℕ, zero, suc, ◌+◌, ◌≤◌, ◌<◌, ◌≡◌, refl, ap, sym, ◌∙◌, arith, Bool, true, false,
}
use squirrel.Prelude.{Option, none, some, List, [], ◌∷◌, ◌++◌}
use squirrel.Prelude.{length, All, append_assoc, append-nil}
use squirrel.Status.{Status, ok, failed}
use squirrel.Crc32c.{Crc}
use squirrel.Env.{WritableFile, IsReliable, SequentialFile, IsReadable}
use squirrel.Log.Format.{block_size}
use squirrel.Log.Writer.{Writer, add_record}
use squirrel.Log.Writer.Loop.{add_record-Added}
use squirrel.Log.Layout.{Laid}
use squirrel.Log.Reader.Physical.{ReaderOptions, Reader}
use squirrel.Log.Reader.Record.{read_record}
use squirrel.Log.Reader.Blocks.{At}
use squirrel.Log.Reader.RoundTrip.{read_record-Laid, read_record-end}

-- Adds the records in order, while the writer returns OK.
module _ (c : Crc) (file : WritableFile) where
  unfoldable pub after_add :
      (Writer c file → Option (Writer c file))
      → Option (Status × Writer c file)
      → Option (Writer c file)
  after_add rest none = none
  after_add rest (some (ok, w)) = rest w
  after_add rest (some (failed _ _, w)) = none

  unfoldable pub add_records : List (List ℕ) → Writer c file → Option (Writer c file)
  add_records [] w = some w
  add_records (x ∷ xs) w = after_add (add_records xs) (add_record c file x w)

-- Reads records until the reader returns false; `fuel` bounds each call and `count` the records.
module _ (c : Crc) (s : SequentialFile) (o : ReaderOptions) (fuel : ℕ) where
  abbrev Records : Type 0
  Records = Option (List (List ℕ) × Reader c s o)

  unfoldable pub prepend : List ℕ → Records → Records
  prepend x none = none
  prepend x (some (xs, r)) = some (x ∷ xs, r)

  unfoldable pub after_read :
      (Reader c s o → Records) → Option (Bool × List ℕ × Reader c s o) → Records
  after_read rest none = none
  after_read rest (some (true, x, r)) = prepend x (rest r)
  after_read rest (some (false, x, r)) = some ([], r)

  unfoldable pub read_records : ℕ → Reader c s o → Records
  read_records zero r = none
  read_records (suc count) r = after_read (read_records count) (read_record c s o fuel r)

-- `bytes`, from offset `p` of a block to offset `p'`, hold the records.
pub data Stored (c : Crc) : ℕ → List (List ℕ) → List ℕ → ℕ → Type 0 where
  empty : (p : ℕ) → Stored c p [] [] p
  more :
      (p p1 p' : ℕ) (x : List ℕ) (xs : List (List ℕ)) (bytes rest : List ℕ)
      → Laid c p true x bytes p1
      → p1 ≤ block_size
      → Stored c p1 xs rest p'
      → Stored c p (x ∷ xs) (bytes ++ rest) p'

module _ (c : Crc) (file : WritableFile) (good : IsReliable file) where
  abbrev StoredBy : List (List ℕ) → Writer c file → Option (Writer c file) → Type 0
  StoredBy xs w result =
      (w' : Writer c file) × (bytes : List ℕ) × (result ≡ some w')
      × (good.contents w'.dest ≡ good.contents w.dest ++ bytes)
      × Stored c w.block_offset xs bytes w'.block_offset
      × (w'.block_offset ≤ block_size)

  pub add_records-Stored :
      (xs : List (List ℕ)) (w : Writer c file)
      → w.block_offset ≤ block_size
      → StoredBy xs w (add_records c file xs w)
  unfolding add_records after_add
  add_records-Stored [] w h = (w, [], refl, sym (append-nil _), empty w.block_offset, h)
  add_records-Stored (x ∷ xs) w h =
      let added = add_record-Added c file good x w h in
      let w1 = added.after in
      let (w', rest, e, cs, stored, h') = add_records-Stored xs w1 added.in_block in
      (
        w',
        added.bytes ++ rest,
        rw (added.returns) e,
        cs
            ∙ ap (λ l. l ++ rest) added.appended
            ∙ append_assoc (good.contents w.dest) added.bytes rest,
        more w.block_offset w1.block_offset w'.block_offset x xs added.bytes rest added.laid
            added.in_block stored,
        h',
      )

module _ (c : Crc) (s : SequentialFile) (o : ReaderOptions) (good : IsReadable s) where
  pub read_records-Stored :
      (fuel count p p' : ℕ) (xs : List (List ℕ)) (bytes : List ℕ) (r : Reader c s o)
      → Stored c p xs bytes p'
      → p ≤ block_size
      → At c s o good p bytes r
      → r.resyncing ≡ false
      → o.initial_offset ≡ zero
      → 0 < fuel
      → All (λ x. length x + 2 ≤ fuel) xs
      → length xs < count
      → (r' : Reader c s o) × (read_records c s o fuel count r ≡ some (xs, r'))
        × (r'.reports ≡ r.reports)
  unfolding read_records after_read prepend
  read_records-Stored fuel zero p p' xs bytes r stored h at quiet no_offset f enough n =
      absurd (omega (arith, n))
  read_records-Stored fuel (suc count) _ _ _ _ r (empty p) h at quiet no_offset f enough n =
      let (r', e, clean) = read_record-end c s o good fuel p r at quiet no_offset f in
      (r', rw e refl, clean.reports_eq)
  read_records-Stored fuel (suc count) _ _ _ _ r (more p p1 p' x xs bytes rest laid h1 stored) h at
        quiet no_offset f enough n =
      let (r1, e, at1, clean) =
        read_record-Laid c s o good fuel p x bytes p1 rest r laid h at quiet no_offset enough.0 in
      let (r', e', reports) =
        read_records-Stored fuel count p1 p' xs rest r1 stored h1 at1 clean.resyncing_eq no_offset f
          enough.1 (omega (arith, n)) in
      (r', rw (e, e') refl, reports ∙ clean.reports_eq)
