-- ===== src/FileName/Runs.antt =====
-- Tests of the file names, and their theorems at concrete inputs.
use squirrel.Prelude.{
  ℕ, ◌+◌, ◌≡◌, refl, arith, true, false, Option, none, some, List, ◌++◌, length, drop, codes, ◌⊎◌,
}
use squirrel.Status.{is_ok}
use squirrel.Env.Runs.{failing, failing-IsFileSystem, with_rename-IsFileSystem, no_files}
use squirrel.FileName.{
  FileType, log_file, db_lock_file, table_file, descriptor_file, current_file, temp_file,
  info_log_file,
}
use squirrel.FileName.{
  padded, parse_file_name, log_file_name, table_file_name, sst_table_file_name, temp_file_name,
  descriptor_file_name, current_file_name, lock_file_name, info_log_file_name,
  old_info_log_file_name, set_current_file,
}
use squirrel.FileName.Parse.{parse-make}
use squirrel.FileName.Current.{set_current_file-contents, written_to}

names_log : log_file_name (codes "db") 17 ≡ codes "db/000017.log"
unfolding log_file_name squirrel.FileName.make_file_name squirrel.FileName.in_directory
    squirrel.FileName.numbered padded squirrel.Logging.decimal
names_log = refl

refuses_suffix : parse_file_name (codes "17.txt") ≡ none
unfolding parse_file_name squirrel.Slice.slice_eq squirrel.Slice.starts_with
    squirrel.Logging.consume_decimal_number
refuses_suffix = refl

abbrev parse : List ℕ → Option (ℕ × FileType)
parse name = parse_file_name (drop (length (codes "db") + 1) name)

parse-make_example :
    (parse (log_file_name (codes "db") 17) ≡ some (17, log_file))
    × (parse (table_file_name (codes "db") 17) ≡ some (17, table_file))
    × (parse (sst_table_file_name (codes "db") 17) ≡ some (17, table_file))
    × (parse (temp_file_name (codes "db") 17) ≡ some (17, temp_file))
    × (parse (descriptor_file_name (codes "db") 17) ≡ some (17, descriptor_file))
    × (parse (current_file_name (codes "db")) ≡ some (0, current_file))
    × (parse (lock_file_name (codes "db")) ≡ some (0, db_lock_file))
    × (parse (info_log_file_name (codes "db")) ≡ some (0, info_log_file))
    × (parse (old_info_log_file_name (codes "db")) ≡ some (0, info_log_file))
parse-make_example = parse-make (codes "db") 17 (omega arith)

-- A rename that fails and takes the file CURRENT with it.
set_current_file-contents_example :
    let out = set_current_file failing (codes "db") 17 no_files in
    let current = current_file_name (codes "db") in
    let before = written_to failing failing-IsFileSystem (codes "db") 17 (omega arith) no_files in
    let renamed = failing.rename_file (temp_file_name (codes "db") 17) current before in
    ((is_ok out.0 ≡ true) × (out.1 current ≡ some (codes "MANIFEST-" ++ padded 17 ++ codes "\n")))
    ⊎ ((is_ok out.0 ≡ false) × (out.1 current ≡ no_files current))
    ⊎ ((is_ok out.0 ≡ false)
        × (is_ok renamed.0 ≡ false)
        × (out.1 current ≡ renamed.1 current)
        × (before current ≡ no_files current)
        × (before (temp_file_name (codes "db") 17)
            ≡ some (codes "MANIFEST-" ++ padded 17 ++ codes "\n")))
unfolding failing-IsFileSystem with_rename-IsFileSystem
set_current_file-contents_example =
    set_current_file-contents failing failing-IsFileSystem (codes "db") 17 (omega arith) no_files
