-- ===== src/Env/Files.antt =====
-- Whole files read and written.
use squirrel.Prelude.{
  ℕ, zero, suc, ◌+◌, ◌*◌, ◌/◌, ◌<◌, ◌≤◌, ◌≡◌, ◌≢◌, refl, ap, ◌∙◌, arith, inl, inr,
}
use squirrel.Prelude.{
  Bool, true, false, Option, none, some, List, [], ◌∷◌, ◌++◌, ◌==◌, length, take, drop, append-nil,
  append_assoc, take-append-drop, length-take, length-drop, Bool-cases,
}
use squirrel.Status.{Status, ok, is_ok, failed}
use squirrel.Env.{
  SequentialFile, IsReadable, read_file_loop, after_read, ReadResult, read_file_to_string,
}
use squirrel.Env.{
  FileSystem, IsFileSystem, if_ok, sync_after, finish_write, do_write_string_to_file,
}

module _ (s : SequentialFile) (readable : IsReadable s) where
  after_read-left :
      (again : List ℕ → s.File → Option (ReadResult s)) (bytes left : List ℕ) (g : s.File)
      → (0 < length left
          → (h : s.File) × (again (bytes ++ take 8192 left) g
              ≡ some (ok, (bytes ++ take 8192 left) ++ drop 8192 left, h)))
      → (h : s.File) × (after_read s again bytes (ok, take 8192 left, g)
          ≡ some (ok, bytes ++ left, h))
  unfolding after_read
  after_read-left again bytes [] g more = (g, rw append-nil refl)
  after_read-left again bytes (x ∷ left) g more =
      let (h, run) = more (omega arith) in
      let some_bytes : (length (take 8192 (x ∷ left)) == 0) ≡ false =
        ground (arith, length-take 8192 (x ∷ left)) in
      (
        h,
        rw (some_bytes, run)
            (ap (λ t. some (ok, t, h))
              (append_assoc bytes (take 8192 (x ∷ left)) (drop 8192 (x ∷ left))
                ∙ ap (λ t. bytes ++ t) (take-append-drop 8192 (x ∷ left)))),
      )

  read_file_loop-left :
      (fuel : ℕ) (bytes : List ℕ) (f : s.File)
      → length (readable.left f) ≤ 8192 * fuel
      → (g : s.File) × (read_file_loop s (suc fuel) bytes f
          ≡ some (ok, bytes ++ readable.left f, g))
  unfolding read_file_loop
  read_file_loop-left zero bytes f enough =
      let (g, run, rest) = readable.read_ok 8192 f in
      rw run
        (after_read-left (λ b h. none) bytes (readable.left f) g (λ more. absurd (omega arith)))
  read_file_loop-left (suc fuel) bytes f enough =
      let (g, run, rest) = readable.read_ok 8192 f in
      let again =
        read_file_loop-left fuel (bytes ++ take 8192 (readable.left f)) g
          (omega (arith, ap length rest, length-drop 8192 (readable.left f))) in
      rw run (
        after_read-left (read_file_loop s (suc fuel)) bytes (readable.left f) g (λ more. (
          again.0,
          again.1 ∙ ap (λ t. some (ok, (bytes ++ take 8192 (readable.left f)) ++ t, again.0)) rest,
        )))

  -- Where every read succeeds, `ReadFileToString` ends and returns the whole file, with fuel for
  -- its length in buffers and two more rounds.
  pub read_file_to_string-left :
      (fuel : ℕ) (f : s.File)
      → length (readable.left f) / 8192 + 2 ≤ fuel
      → (g : s.File) × (read_file_to_string s fuel (ok, f) ≡ some (ok, readable.left f, g))
  unfolding read_file_to_string
  read_file_to_string-left zero f enough = absurd (omega arith)
  read_file_to_string-left (suc fuel) f enough = read_file_loop-left fuel [] f (omega arith)

module _ (e : FileSystem) (laws : IsFileSystem e) where
  -- A step that goes on where the status is OK keeps what both parts keep.
  pub if_ok-keeps :
      (P : Bool → e.Files → Type 0) (r : Status × e.Files) (k : e.Files → Status × e.Files)
      → P (is_ok r.0) r.1
      → ((f : e.Files) → P true f → P (is_ok (k f).0) (k f).1)
      → P (is_ok (if_ok r k).0) (if_ok r k).1
  if_ok-keeps P (ok, f) k h next = next f h
  if_ok-keeps P (failed c msg, f) k h next = h

  sync_after-same :
      (n m : List ℕ) (should_sync : Bool) (r : Status × e.Files)
      → laws.contents (sync_after e n should_sync r).1 m ≡ laws.contents r.1 m
  unfolding sync_after
  sync_after-same n m true (ok, f) = laws.sync_same n m f
  sync_after-same n m false (ok, f) = refl
  sync_after-same n m should_sync (failed c msg, f) = refl

  sync_after-ok :
      (n : List ℕ) (should_sync : Bool) (r : Status × e.Files)
      → is_ok (sync_after e n should_sync r).0 ≡ true
      → is_ok r.0 ≡ true
  unfolding sync_after
  sync_after-ok n should_sync (ok, f) h = refl
  sync_after-ok n should_sync (failed c msg, f) h = h

  finish_write-other :
      (n m : List ℕ) (r : Status × e.Files)
      → n ≢ m
      → laws.contents (finish_write e n r).1 m ≡ laws.contents r.1 m
  unfolding finish_write
  finish_write-other n m (ok, f) ne = laws.release_same n m f
  finish_write-other n m (failed c msg, f) ne =
      laws.delete_other n m (e.release n f) ne ∙ laws.release_same n m f

  -- The file has the bytes, if the status is OK.
  abbrev Holds : List ℕ → List ℕ → Bool → e.Files → Type 0
  Holds n bytes done f = done ≡ true → laws.contents f n ≡ some bytes

  finish_write-Holds :
      (n bytes : List ℕ) (r : Status × e.Files)
      → Holds n bytes (is_ok r.0) r.1
      → Holds n bytes (is_ok (finish_write e n r).0) (finish_write e n r).1
  unfolding finish_write
  finish_write-Holds n bytes (ok, f) h g = laws.release_same n n f ∙ h g
  finish_write-Holds n bytes (failed c msg, f) h g = cc

  -- Writing a file leaves all others as they are, on every path.
  pub write-other :
      (bytes n m : List ℕ) (should_sync : Bool) (f : e.Files)
      → n ≢ m
      → laws.contents (do_write_string_to_file e bytes n should_sync f).1 m ≡ laws.contents f m
  unfolding do_write_string_to_file
  write-other bytes n m sync f ne =
      let write : e.Files → Status × e.Files =
        λ opened. if_ok (sync_after e n sync (e.append n bytes opened)) (e.close n) in
      if_ok-keeps (λ b g. laws.contents g m ≡ laws.contents f m) (e.new_writable_file n f)
        (λ opened. finish_write e n (write opened)) (laws.new_other n m f ne)
        λ opened h.
          finish_write-other n m (write opened) ne
          ∙ (if_ok-keeps (λ b g. laws.contents g m ≡ laws.contents opened m)
                (sync_after e n sync (e.append n bytes opened)) (e.close n)
                (sync_after-same n m sync (e.append n bytes opened)
                  ∙ laws.append_other n m bytes opened ne)
                (λ g k. laws.close_same n m g ∙ k)
              ∙ h)

  -- Where it returns OK, the file holds the bytes.
  pub write-contents :
      (bytes n : List ℕ) (should_sync : Bool) (f : e.Files)
      → is_ok (do_write_string_to_file e bytes n should_sync f).0 ≡ true
      → laws.contents (do_write_string_to_file e bytes n should_sync f).1 n ≡ some bytes
  unfolding do_write_string_to_file
  write-contents bytes n sync f = elim (Bool-cases (is_ok (e.new_writable_file n f).0)) [
    | inl opened ↦
        let f1 = (e.new_writable_file n f).1 in
        rw opened (
          finish_write-Holds n bytes (if_ok (sync_after e n sync (e.append n bytes f1)) (e.close n))
            (if_ok-keeps (Holds n bytes) (sync_after e n sync (e.append n bytes f1)) (e.close n)
              (λ done.
                sync_after-same n n sync (e.append n bytes f1)
                ∙ laws.append_end n bytes [] f1 (sync_after-ok n sync (e.append n bytes f1) done)
                    (laws.new_empty n f opened))
              (λ g h done. laws.close_same n n g ∙ h refl)))
    | inr refused ↦ rw refused (λ done. ground (arith, done, refused))
  ]
