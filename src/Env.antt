-- ===== src/Env.antt =====
-- include/leveldb/env.h: the files that the library writes and reads, as interfaces, whose
-- implementations call the operating system and are not modelled, and util/env.cpp.
pub mod Files
pub mod Runs
use squirrel.Prelude.{ℕ, zero, suc, ◌≡◌, ◌≢◌, Bool, true, false, ◌&&◌, Option, none, some}
use squirrel.Prelude.{List, [], ◌++◌, ◌==◌, if◌then◌else◌, length, take, drop}
use squirrel.Status.{Status, ok, is_ok}

-- A `WritableFile`; each call may fail.
pub record WritableFile : Type 1 where
  pub File : Type 0
  pub append : List ℕ → File → Status × File
  pub flush : File → Status × File

-- A file on which every call succeeds, and whose contents are what has been appended.
pub record IsReliable (w : WritableFile) : Type 0 where
  pub contents : w.File → List ℕ
  pub append_ok :
      (data_ : List ℕ) (f : w.File)
      → (f' : w.File) × (w.append data_ f ≡ (ok, f')) × (contents f' ≡ contents f ++ data_)
  pub flush_ok : (f : w.File) → (f' : w.File) × (w.flush f ≡ (ok, f')) × (contents f' ≡ contents f)

-- A `SequentialFile`: `read n` returns the bytes read, `skip n` passes over bytes.
pub record SequentialFile : Type 1 where
  pub File : Type 0
  pub read : ℕ → File → Status × List ℕ × File
  pub skip : ℕ → File → Status × File

-- A file on which every read succeeds and returns as many of the bytes left as it was asked for.
pub record IsReadable (s : SequentialFile) : Type 0 where
  pub left : s.File → List ℕ
  pub read_ok :
      (n : ℕ) (f : s.File)
      → (f' : s.File) × (s.read n f ≡ (ok, take n (left f), f')) × (left f' ≡ drop n (left f))

-- What `Env` and its files do for `WriteStringToFile` and `SetCurrentFile`: a file that has been
-- opened for writing goes by its name, and `release` is its destructor.
pub record FileSystem : Type 1 where
  pub Files : Type 0
  pub new_writable_file : List ℕ → Files → Status × Files
  pub append : List ℕ → List ℕ → Files → Status × Files
  pub sync : List ℕ → Files → Status × Files
  pub close : List ℕ → Files → Status × Files
  pub release : List ℕ → Files → Files
  pub delete_file : List ℕ → Files → Status × Files
  pub rename_file : List ℕ → List ℕ → Files → Status × Files

-- Each call changes the files that it names at most. A new file is empty, what has been appended is
-- at its end, and a file that has been renamed has its contents under the new name. Nothing is said
-- of the files that a failed rename names.
pub record IsFileSystem (e : FileSystem) : Type 0 where
  pub contents : e.Files → List ℕ → Option (List ℕ)
  pub new_empty :
      (n : List ℕ) (f : e.Files)
      → is_ok (e.new_writable_file n f).0 ≡ true
      → contents (e.new_writable_file n f).1 n ≡ some []
  pub append_end :
      (n bytes c : List ℕ) (f : e.Files)
      → is_ok (e.append n bytes f).0 ≡ true
      → contents f n ≡ some c
      → contents (e.append n bytes f).1 n ≡ some (c ++ bytes)
  pub sync_same : (n m : List ℕ) (f : e.Files) → contents (e.sync n f).1 m ≡ contents f m
  pub close_same : (n m : List ℕ) (f : e.Files) → contents (e.close n f).1 m ≡ contents f m
  pub release_same : (n m : List ℕ) (f : e.Files) → contents (e.release n f) m ≡ contents f m
  pub new_other :
      (n m : List ℕ) (f : e.Files) → n ≢ m → contents (e.new_writable_file n f).1 m ≡ contents f m
  pub append_other :
      (n m bytes : List ℕ) (f : e.Files) → n ≢ m → contents (e.append n bytes f).1 m ≡ contents f m
  pub delete_other :
      (n m : List ℕ) (f : e.Files) → n ≢ m → contents (e.delete_file n f).1 m ≡ contents f m
  pub rename_ok :
      (n m : List ℕ) (f : e.Files)
      → is_ok (e.rename_file n m f).0 ≡ true
      → contents (e.rename_file n m f).1 m ≡ contents f n

-- The rest of a function that goes on where the status is OK.
abbrev pub if_ok : {A : Type 0} → Status × A → (A → Status × A) → Status × A
if_ok (s, a) k = if is_ok s then k a else (s, a)

module _ (e : FileSystem) where
  -- `if (s.ok() && should_sync) s = file->Sync()`
  unfoldable pub sync_after : List ℕ → Bool → Status × e.Files → Status × e.Files
  sync_after fname should_sync (s, f) = if is_ok s && should_sync then e.sync fname f else (s, f)

  -- `delete file; if (!s.ok()) env->DeleteFile(fname)`
  unfoldable pub finish_write : List ℕ → Status × e.Files → Status × e.Files
  finish_write fname (s, f) =
      let released = e.release fname f in
      (s, if is_ok s then released else (e.delete_file fname released).1)

  unfoldable pub do_write_string_to_file : List ℕ → List ℕ → Bool → e.Files → Status × e.Files
  do_write_string_to_file bytes fname should_sync f = if_ok (e.new_writable_file fname f) λ opened.
      finish_write fname
        (if_ok (sync_after fname should_sync (e.append fname bytes opened)) (e.close fname))

  unfoldable pub write_string_to_file : List ℕ → List ℕ → e.Files → Status × e.Files
  write_string_to_file bytes fname f = do_write_string_to_file bytes fname false f

  unfoldable pub write_string_to_file_sync : List ℕ → List ℕ → e.Files → Status × e.Files
  write_string_to_file_sync bytes fname f = do_write_string_to_file bytes fname true f

module _ (s : SequentialFile) where
  abbrev pub ReadResult : Type 0
  ReadResult = Status × List ℕ × s.File

  -- What a read leads to: an error or the end of the file stops the loop.
  unfoldable pub after_read :
      (List ℕ → s.File → Option ReadResult) → List ℕ → ReadResult → Option ReadResult
  after_read again bytes (status, fragment, f) =
      if is_ok status
      then if length fragment == 0 then some (status, bytes, f) else again (bytes ++ fragment) f
      else some (status, bytes, f)

  -- The loop of `ReadFileToString`, on fuel; `none` is its end.
  unfoldable pub read_file_loop : ℕ → List ℕ → s.File → Option ReadResult
  unfolding after_read
  read_file_loop zero bytes f = none
  read_file_loop (suc fuel) bytes f = after_read (read_file_loop fuel) bytes (s.read 8192 f)

  -- The argument is what `NewSequentialFile` returned.
  unfoldable pub read_file_to_string : ℕ → Status × s.File → Option ReadResult
  read_file_to_string fuel (status, f) =
      if is_ok status then read_file_loop fuel [] f else some (status, [], f)
