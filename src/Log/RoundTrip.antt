-- ===== src/Log/RoundTrip.antt =====
-- A log that is written, closed, opened again and read.
use squirrel.Prelude.{
  ℕ, zero, suc, ◌+◌, ◌-◌, ◌%◌, ◌≤◌, ◌<◌, ◌≡◌, refl, ap, sym, ◌∙◌, subst, arith, Bool, true, false,
}
use squirrel.Prelude.{some, List, [], ◌∷◌, ◌++◌, ltb, ◌==◌, Bool-cases, inl, inr}
use squirrel.Prelude.{length, All, append_assoc, length-append, length-replicate}
use squirrel.Crc32c.{Crc}
use squirrel.Env.{WritableFile, IsReliable, SequentialFile, IsReadable}
use squirrel.Log.Format.{block_size, header_size}
use squirrel.Log.Writer.{Writer, new_writer, reopen_writer, fragment_type}
use squirrel.Log.Layout.{Laid, whole, cut, start, padding, room, frame}
use squirrel.Log.Reader.Physical.{ReaderOptions, Reader, new_reader}
use squirrel.Log.Reader.Parse.{length-frame}
use squirrel.Log.Reader.Blocks.{At}
use squirrel.Log.Session.{
  Stored, empty, more, add_records, read_records, add_records-Stored, read_records-Stored,
}

padding-start :
    (o : ℕ) → o ≤ block_size → (o + length (padding o)) % block_size ≡ start o % block_size
padding-start o h = elim (Bool-cases (ltb (block_size - o) header_size)) [
  | inl switch ↦ rw switch (omega (arith, length-replicate {A = ℕ} (block_size - o) 0))
  | inr stay ↦ rw stay (omega arith)
]

start-room : (o : ℕ) → o ≤ block_size → start o + header_size + room o ≡ block_size
start-room o h = ground arith

-- The writer's offset is the file's length, up to whole blocks.
Laid-offset :
    (c : Crc) (o : ℕ) (begin : Bool) (payload bytes : List ℕ) (o' : ℕ)
    → Laid c o begin payload bytes o'
    → o ≤ block_size
    → o' % block_size ≡ (o + length bytes) % block_size
Laid-offset c _ _ _ _ _ (whole o begin payload fits) h =
    let t = fragment_type begin true in
    omega (
      arith,
      padding-start o h,
      length-append (padding o) (frame c t payload),
      length-frame c t payload,
    )
Laid-offset c _ _ _ _ _ (cut o begin front rest bytes o' full some_left laid) h =
    let t = fragment_type begin false in
    omega (
      arith,
      padding-start o h,
      start-room o h,
      full,
      length-append (padding o) (frame c t front ++ bytes),
      length-append (frame c t front) bytes,
      length-frame c t front,
      Laid-offset c block_size false rest bytes o' laid (omega arith),
    )

Stored-offset :
    (c : Crc) (p : ℕ) (xs : List (List ℕ)) (bytes : List ℕ) (p' : ℕ)
    → Stored c p xs bytes p'
    → p ≤ block_size
    → p' % block_size ≡ (p + length bytes) % block_size
Stored-offset c _ _ _ _ (empty p) h = omega arith
Stored-offset c _ _ _ _ (more p p1 p' x xs bytes rest laid h1 stored) h = omega (
  arith,
  Laid-offset c p true x bytes p1 laid h,
  Stored-offset c p1 xs rest p' stored h1,
  length-append bytes rest,
)

-- The end of a block and the start of the next one are the same place.
Laid-turn :
    (c : Crc) (o : ℕ) (begin : Bool) (payload bytes : List ℕ) (o' : ℕ)
    → Laid c o begin payload bytes o'
    → o ≡ zero
    → Laid c block_size begin payload bytes o'
Laid-turn c _ _ _ _ _ (whole o begin payload fits) e =
    subst
      (λ z.
        length payload ≤ room z
        → Laid c block_size begin payload (padding z ++ frame c (fragment_type begin true) payload)
            (start z + header_size + length payload))
      (sym e) (whole block_size begin payload) fits
Laid-turn c _ _ _ _ _ (cut o begin front rest bytes o' full some_left laid) e =
    subst
      (λ z.
        length front ≡ room z
        → Laid c block_size begin (front ++ rest)
            (padding z ++ (frame c (fragment_type begin false) front ++ bytes)) o')
      (sym e) (λ full. cut block_size begin front rest bytes o' full some_left laid) full

Stored-turn :
    (c : Crc) (p : ℕ) (xs : List (List ℕ)) (bytes : List ℕ) (p' : ℕ)
    → Stored c p xs bytes p'
    → p ≡ zero
    → (p2 : ℕ) × Stored c block_size xs bytes p2
Stored-turn c _ _ _ _ (empty p) e = (block_size, empty block_size)
Stored-turn c _ _ _ _ (more p p1 p' x xs bytes rest laid h stored) e =
    (p', more block_size p1 p' x xs bytes rest (Laid-turn c p true x bytes p1 laid e) h stored)

-- Where one session ends the next one goes on.
Stored-resume :
    (c : Crc) (p q : ℕ) (ys : List (List ℕ)) (bytes : List ℕ) (q' : ℕ)
    → Stored c q ys bytes q'
    → p ≤ block_size
    → q ≡ p % block_size
    → (p' : ℕ) × Stored c p ys bytes p'
Stored-resume c p q ys bytes q' stored h e = elim (Bool-cases (p == block_size)) [
  | inl full ↦
      let at_end : block_size ≡ p = ground arith in
      subst (λ k. (p' : ℕ) × Stored c k ys bytes p') at_end
        (Stored-turn c q ys bytes q' stored (omega (arith, at_end)))
  | inr inside ↦ (q', subst (λ k. Stored c k ys bytes q') {x = q} (ground arith) stored)
]

Stored-append :
    (c : Crc) (p : ℕ) (xs ys : List (List ℕ)) (bytes rest : List ℕ) (p1 p2 : ℕ)
    → Stored c p xs bytes p1
    → Stored c p1 ys rest p2
    → Stored c p (xs ++ ys) (bytes ++ rest) p2
Stored-append c _ _ ys _ rest _ p2 (empty p) after = after
Stored-append c _ _ ys _ rest _ p2 (more p p1 p' x xs bytes bytes' laid h stored) after =
    subst (λ l. Stored c p (x ∷ (xs ++ ys)) l p2) (sym (append_assoc bytes bytes' rest))
      (more p p1 p2 x (xs ++ ys) bytes (bytes' ++ rest) laid h
        (Stored-append c p1 xs ys bytes' rest p' p2 stored after))

module _ (c : Crc) (file : WritableFile) (good : IsReliable file) where
  -- What two sessions leave in a file that was empty.
  abbrev TwoSessions : List (List ℕ) → List (List ℕ) → file.File → Type 0
  TwoSessions xs ys dest =
      (w1 w2 : Writer c file) × (bytes : List ℕ) × (p : ℕ) × (add_records c file xs
          (new_writer c file dest)
        ≡ some w1)
      × (add_records c file ys (reopen_writer c file w1.dest (length (good.contents w1.dest)))
          ≡ some w2)
      × (good.contents w2.dest ≡ bytes)
      × Stored c block_size (xs ++ ys) bytes p

  two_sessions :
      (xs ys : List (List ℕ)) (dest : file.File) → good.contents dest ≡ [] → TwoSessions xs ys dest
  two_sessions xs ys dest fresh =
      let (w1, bytes, e1, cs1, stored1, h1) =
        add_records-Stored c file good xs (new_writer c file dest) (omega arith) in
      let held : good.contents w1.dest ≡ bytes = cs1 ∙ ap (λ l. l ++ bytes) fresh in
      let size = length (good.contents w1.dest) in
      let (w2, rest, e2, cs2, stored2, h2) =
        add_records-Stored c file good ys (reopen_writer c file w1.dest size) (omega arith) in
      let offset : size % block_size ≡ w1.block_offset % block_size =
        omega (
          arith,
          ap length held,
          Stored-offset c 0 xs bytes w1.block_offset stored1 (omega arith),
        ) in
      let (p2, resumed) =
        Stored-resume c w1.block_offset (size % block_size) ys rest w2.block_offset stored2 h1
          offset in
      let (p, all) =
        Stored-turn c 0 (xs ++ ys) (bytes ++ rest) p2
          (Stored-append c 0 xs ys bytes rest w1.block_offset p2 stored1 resumed) refl in
      (w1, w2, bytes ++ rest, p, e1, e2, cs2 ∙ ap (λ l. l ++ rest) held, all)

-- Opening for reading what has been written.
pub record Reopens (file : WritableFile) (good : IsReliable file) (s : SequentialFile)
    (readable : IsReadable s) : Type 0 where
  pub open_ : file.File → s.File
  pub open-left : (f : file.File) → readable.left (open_ f) ≡ good.contents f

new_reader-At :
    (c : Crc) (s : SequentialFile) (o : ReaderOptions) (good : IsReadable s) (source : s.File)
    (bytes : List ℕ)
    → good.left source ≡ bytes
    → At c s o good block_size bytes (new_reader c s o source)
new_reader-At c s o good source bytes e = record {
  buffer_eq = refl;
  left_eq = e;
  full = λ h. refl;
  done = λ h. ground arith;
}

module _ (c : Crc) (file : WritableFile) (good : IsReliable file) (s : SequentialFile)
    (readable : IsReadable s) (again : Reopens file good s readable) where
  -- Records that a writer adds to an empty file, and further ones that a writer adds that is
  -- opened on the same file with its length, where all calls of the files succeed, are all read
  -- in their order by one reader with no initial offset, which then returns false and has not
  -- reported anything. The reader's fuel is at least the length of each record plus two.
  pub log_round_trip :
      (o : ReaderOptions) (fuel : ℕ) (xs ys : List (List ℕ)) (dest : file.File)
      → good.contents dest ≡ []
      → o.initial_offset ≡ zero
      → 0 < fuel
      → All (λ x. length x + 2 ≤ fuel) (xs ++ ys)
      → (w1 w2 : Writer c file) × (r : Reader c s o) × (add_records c file xs
            (new_writer c file dest)
          ≡ some w1)
        × (add_records c file ys (reopen_writer c file w1.dest (length (good.contents w1.dest)))
            ≡ some w2)
        × (read_records c s o fuel
              (suc (length (xs ++ ys)))
              (new_reader c s o (again.open_ w2.dest))
            ≡ some (xs ++ ys, r))
        × (r.reports ≡ [])
  log_round_trip o fuel xs ys dest fresh no_offset f enough =
      let (w1, w2, bytes, p, e1, e2, cs, stored) = two_sessions c file good xs ys dest fresh in
      let r0 = new_reader c s o (again.open_ w2.dest) in
      let at =
        new_reader-At c s o readable (again.open_ w2.dest) bytes (again.open-left w2.dest ∙ cs) in
      let (r, e, quiet) =
        read_records-Stored c s o readable fuel (suc (length (xs ++ ys))) block_size p (xs ++ ys)
          bytes r0 stored (omega arith) at (ground arith) no_offset f enough (omega arith) in
      (w1, w2, r, e1, e2, e, quiet)
