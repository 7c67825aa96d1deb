-- ===== src/FileName.antt =====
-- db/filename.h and db/filename.cpp: the names of the files of a database.
pub mod Parse
pub mod Current
mod Runs
use mathlib.Core.Option
use squirrel.Prelude.{
  ℕ, ◌+◌, ◌-◌, Bool, true, false, ◌&&◌, ◌||◌, Option, none, some, List, [], ◌∷◌, ◌++◌,
}
use squirrel.Prelude.{◌==◌, if◌then◌else◌, length, drop, replicate, codes}
use squirrel.Slice.{slice_eq, starts_with}
use squirrel.Logging.{decimal, Parsed, consume_decimal_number}
use squirrel.Status.{Status, ok, is_ok}
use squirrel.Env.{FileSystem, if_ok, write_string_to_file_sync}

pub data FileType : Type 0 where
  log_file db_lock_file table_file descriptor_file current_file temp_file info_log_file : FileType

-- `%06llu`
unfoldable pub padded : ℕ → List ℕ
padded number = let digits = decimal number in replicate (6 - length digits) b'0' ++ digits

-- Without the directory and the slash, which `in_directory` puts in front.
unfoldable pub numbered : ℕ → List ℕ → List ℕ
numbered number suffix = padded number ++ (codes "." ++ suffix)

unfoldable pub in_directory : List ℕ → List ℕ → List ℕ
in_directory dbname name = dbname ++ (codes "/" ++ name)

unfoldable pub make_file_name : List ℕ → ℕ → List ℕ → List ℕ
make_file_name name number suffix = in_directory name (numbered number suffix)

-- The numbers are asserted to be positive.
unfoldable pub log_file_name : List ℕ → ℕ → List ℕ
log_file_name name number = make_file_name name number (codes "log")

unfoldable pub table_file_name : List ℕ → ℕ → List ℕ
table_file_name name number = make_file_name name number (codes "ldb")

unfoldable pub sst_table_file_name : List ℕ → ℕ → List ℕ
sst_table_file_name name number = make_file_name name number (codes "sst")

unfoldable pub descriptor_file_name : List ℕ → ℕ → List ℕ
descriptor_file_name dbname number = in_directory dbname (codes "MANIFEST-" ++ padded number)

unfoldable pub current_file_name : List ℕ → List ℕ
current_file_name dbname = in_directory dbname (codes "CURRENT")

unfoldable pub lock_file_name : List ℕ → List ℕ
lock_file_name dbname = in_directory dbname (codes "LOCK")

unfoldable pub temp_file_name : List ℕ → ℕ → List ℕ
temp_file_name dbname number = make_file_name dbname number (codes "dbtmp")

unfoldable pub info_log_file_name : List ℕ → List ℕ
info_log_file_name dbname = in_directory dbname (codes "LOG")

unfoldable pub old_info_log_file_name : List ℕ → List ℕ
old_info_log_file_name dbname = in_directory dbname (codes "LOG.old")

-- The type of a name that is a number with a suffix, by the suffix.
unfoldable pub type_of_suffix : List ℕ → Option FileType
type_of_suffix suffix =
    if slice_eq suffix (codes ".log")
    then some log_file
    else if slice_eq suffix (codes ".sst") || slice_eq suffix (codes ".ldb")
    then some table_file
    else if slice_eq suffix (codes ".dbtmp")
    then some temp_file
    else none

-- After `ConsumeDecimalNumber` on what is behind "MANIFEST-", and on the whole name.
unfoldable pub descriptor_of : Parsed → Option (ℕ × FileType)
descriptor_of p =
    if p.success && (length p.rest == 0)
    then Option.map (λ num. (num, descriptor_file)) p.val
    else none

unfoldable pub with_number : Option ℕ → Option FileType → Option (ℕ × FileType)
with_number (some num) (some t) = some (num, t)
with_number _ _ = none

unfoldable pub numbered_of : Parsed → Option (ℕ × FileType)
unfolding with_number type_of_suffix
numbered_of p = if p.success then with_number p.val (type_of_suffix p.rest) else none

-- `none` is the result false.
unfoldable pub parse_file_name : List ℕ → Option (ℕ × FileType)
unfolding descriptor_of numbered_of
parse_file_name fname =
    if slice_eq fname (codes "CURRENT")
    then some (0, current_file)
    else if slice_eq fname (codes "LOCK")
    then some (0, db_lock_file)
    else if slice_eq fname (codes "LOG") || slice_eq fname (codes "LOG.old")
    then some (0, info_log_file)
    else if starts_with fname (codes "MANIFEST-")
    then descriptor_of (consume_decimal_number (drop (length (codes "MANIFEST-")) fname))
    else numbered_of (consume_decimal_number fname)

module _ (e : FileSystem) where
  unfoldable pub set_current_file : List ℕ → ℕ → e.Files → Status × e.Files
  set_current_file dbname descriptor_number f =
      let manifest = descriptor_file_name dbname descriptor_number in
      let contents = drop (length dbname + 1) manifest in
      let tmp = temp_file_name dbname descriptor_number in
      let (s, g) =
        if_ok (write_string_to_file_sync e (contents ++ codes "\n") tmp f)
          (e.rename_file tmp (current_file_name dbname)) in
      (s, if is_ok s then g else (e.delete_file tmp g).1)
