-- ===== src/FileName/Current.antt =====
-- What `SetCurrentFile` leaves in the current file.
use squirrel.Prelude.{ℕ, ◌+◌, ◌^◌, ◌<◌, ◌≡◌, ◌≢◌, refl, ap, ◌∙◌, ◌⊎◌, inl, inr}
use squirrel.Prelude.{true, false, some, List, ◌++◌, length, drop, codes, Bool-cases, if◌then◌else◌}
use squirrel.Status.{Status, is_ok}
use squirrel.Env.{FileSystem, IsFileSystem, if_ok, write_string_to_file_sync}
use squirrel.Env.Files.{write-other, write-contents}
use squirrel.FileName.{
  padded, current_file_name, temp_file_name, descriptor_file_name, set_current_file,
  parse_file_name,
}
use squirrel.FileName.Parse.{behind_directory, parse-make}

module _ (e : FileSystem) (laws : IsFileSystem e) (dbname : List ℕ) (n : ℕ)
    (small : n < 2 ^ 64) where
  -- The temporary file is not the current one: they are parsed as different types.
  temp_ne_current : temp_file_name dbname n ≢ current_file_name dbname
  temp_ne_current same =
      let made = parse-make dbname n small in
      let read = λ (p : List ℕ). parse_file_name (drop (length dbname + 1) p) in
      cc (made.3, made.5, ap read same)

  -- What the file CURRENT is to hold.
  abbrev pub line : List ℕ
  line = (codes "MANIFEST-" ++ padded n) ++ codes "\n"

  -- What the call of `WriteStringToFileSync` makes of the files.
  abbrev pub written_to : e.Files → e.Files
  written_to f = (write_string_to_file_sync e line (temp_file_name dbname n) f).1

  -- The calls of `SetCurrentFile`, with the bytes that it writes.
  abbrev after_write : List ℕ → e.Files → Status × e.Files
  after_write bytes f =
      let tmp = temp_file_name dbname n in
      let (s, g) =
        if_ok (write_string_to_file_sync e bytes tmp f)
          (e.rename_file tmp (current_file_name dbname)) in
      (s, if is_ok s then g else (e.delete_file tmp g).1)

  set_current_file-after_write : (f : e.Files) → set_current_file e dbname n f ≡ after_write line f
  unfolding set_current_file descriptor_file_name
  set_current_file-after_write f =
      ap (λ b. after_write (b ++ codes "\n") f)
        (behind_directory dbname (codes "MANIFEST-" ++ padded n))

  -- For a uint64_t, over a file system whose calls change the files that they name at most, and
  -- where they succeed create an empty file, append at its end, and rename it with its contents:
  -- `SetCurrentFile` returns OK and CURRENT holds the name of the manifest and a newline; or it
  -- returns an error and CURRENT is as it was; or it returns an error, the rename has failed, and
  -- CURRENT is what that has left of it, while before the rename CURRENT was as it was at first and
  -- the temporary file held the whole line.
  pub set_current_file-contents :
      (f : e.Files)
      → let out = set_current_file e dbname n f in
        let current = current_file_name dbname in
        let before = written_to f in
        let renamed = e.rename_file (temp_file_name dbname n) current before in
        ((is_ok out.0 ≡ true) × (laws.contents out.1 current ≡ some line))
        ⊎ ((is_ok out.0 ≡ false) × (laws.contents out.1 current ≡ laws.contents f current))
        ⊎ ((is_ok out.0 ≡ false)
            × (is_ok renamed.0 ≡ false)
            × (laws.contents out.1 current ≡ laws.contents renamed.1 current)
            × (laws.contents before current ≡ laws.contents f current)
            × (laws.contents before (temp_file_name dbname n) ≡ some line))
  set_current_file-contents f =
      let tmp = temp_file_name dbname n in
      let current = current_file_name dbname in
      let w = write_string_to_file_sync e line tmp f in
      let kept : laws.contents w.1 current ≡ laws.contents f current =
        unfold write_string_to_file_sync in
        write-other e laws line tmp current true f temp_ne_current in
      rw (set_current_file-after_write f) (elim (Bool-cases (is_ok w.0)) [
        | inl written ↦
            let held : laws.contents w.1 tmp ≡ some line =
              unfold write_string_to_file_sync in write-contents e laws line tmp true f written in
            elim (Bool-cases (is_ok (e.rename_file tmp current w.1).0)) [
              | inl renamed ↦
                  rw written
                    (rw renamed (inl (refl, laws.rename_ok tmp current w.1 renamed ∙ held)))
              | inr failed_ ↦
                  let out = (e.rename_file tmp current w.1).1 in
                  rw written (
                    rw failed_ (
                      inr (
                        inr (
                          refl,
                          refl,
                          laws.delete_other tmp current out temp_ne_current,
                          kept,
                          held,
                        ))))
            ]
        | inr unwritten ↦ rw unwritten (
            rw unwritten
              (inr (inl (refl, laws.delete_other tmp current w.1 temp_ne_current ∙ kept))))
      ])
