-- ===== src/Env/Runs.antt =====
-- Files in memory, which meet the interfaces, and the theorems about whole files at them.
use native.Mathlib.Decide.{ℕ_discrete}
use mathlib.Core.Logic.{ite, if_pos, if_neg}
use squirrel.Prelude.{
  ℕ, ◌≡◌, ◌≢◌, refl, ap, ◌∙◌, arith, Option, none, some, List, [], ◌++◌, take, drop, codes,
}
use mathlib.Core.Bool.{true}
use squirrel.Status.{Status, is_ok, failed, io_error, ok}
use squirrel.Env.{SequentialFile, IsReadable, FileSystem, IsFileSystem, read_file_to_string}
use squirrel.Env.Files.{read_file_to_string-left}

names : Discrete (List ℕ)
names = hlevel ℕ_discrete

abbrev pub Directory : Type 0
Directory = List ℕ → Option (List ℕ)

pub put : List ℕ → Option (List ℕ) → Directory → Directory
put n c f m = ite (names n m) c (f m)

unfoldable pub append_bytes : List ℕ → Option (List ℕ) → Option (List ℕ)
append_bytes bytes none = none
append_bytes bytes (some c) = some (c ++ bytes)

pub put_same : (n : List ℕ) (c : Option (List ℕ)) (f : Directory) → put n c f n ≡ c
unfolding put
put_same n c f = if_pos (names n n) refl _ _

pub put_other : (n m : List ℕ) (c : Option (List ℕ)) (f : Directory) → n ≢ m → put n c f m ≡ f m
unfolding put
put_other n m c f h = if_neg (names n m) h _ _

-- Files by their names, with a rename of the test's choice.
abbrev pub with_rename : (rename : List ℕ → List ℕ → Directory → Status × Directory) → FileSystem
with_rename rename = record {
  Files = Directory;
  new_writable_file = λ n f. (ok, put n (some []) f);
  append = λ n bytes f. (ok, put n (append_bytes bytes (f n)) f);
  sync = λ n f. (ok, f);
  close = λ n f. (ok, f);
  release = λ n f. f;
  delete_file = λ n f. (ok, put n none f);
  rename_file = rename;
}

abbrev pub memory : FileSystem
memory = with_rename (λ n m f. (ok, put m (f n) (put n none f)))

-- A rename fails, and the file of the new name is lost.
abbrev pub failing : FileSystem
failing = with_rename (λ n m f. (failed io_error (codes "rename"), put m none f))

unfoldable pub with_rename-IsFileSystem :
    (rename : List ℕ → List ℕ → Directory → Status × Directory)
    → ((n m : List ℕ) (f : Directory) → is_ok (rename n m f).0 ≡ true → (rename n m f).1 m ≡ f n)
    → IsFileSystem (with_rename rename)
unfolding append_bytes
with_rename-IsFileSystem rename moves = record {
  contents = λ f n. f n;
  new_empty = λ n f h. put_same n (some []) f;
  append_end = λ n bytes c f h held.
      put_same n (append_bytes bytes (f n)) f ∙ (ap (append_bytes bytes) held ∙ refl);
  sync_same = λ n m f. refl;
  close_same = λ n m f. refl;
  release_same = λ n m f. refl;
  new_other = λ n m f h. put_other n m (some []) f h;
  append_other = λ n m bytes f h. put_other n m (append_bytes bytes (f n)) f h;
  delete_other = λ n m f h. put_other n m none f h;
  rename_ok = moves;
}

unfoldable pub memory-IsFileSystem : IsFileSystem memory
unfolding with_rename-IsFileSystem
memory-IsFileSystem =
    with_rename-IsFileSystem memory.rename_file (λ n m f h. put_same m (f n) (put n none f))

unfoldable pub failing-IsFileSystem : IsFileSystem failing
unfolding with_rename-IsFileSystem
failing-IsFileSystem = with_rename-IsFileSystem failing.rename_file (λ n m f h. cc h)

pub no_files : Directory
no_files n = none

abbrev bytes_left : SequentialFile
bytes_left = record {
  File = List ℕ;
  read = λ n f. (ok, take n f, drop n f);
  skip = λ n f. (ok, drop n f);
}

bytes_left-IsReadable : IsReadable bytes_left
bytes_left-IsReadable = record { left = λ f. f; read_ok = λ n f. (drop n f, refl, refl) }

read_file_to_string-left_example :
    (g : List ℕ) × (read_file_to_string bytes_left 2 (ok, codes "abc") ≡ some (ok, codes "abc", g))
unfolding bytes_left-IsReadable
read_file_to_string-left_example =
    read_file_to_string-left bytes_left bytes_left-IsReadable 2 (codes "abc") (omega arith)
