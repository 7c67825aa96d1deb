-- ===== src/Status.antt =====
-- include/leveldb/status.h and util/status.cpp. A status is its null pointer or the code and the
-- message that its array holds; copies of the array are copies of the value.
use squirrel.Prelude.{ℕ, Bool, true, false, List, [], ◌++◌, ◌==◌, if◌then◌else◌, length, codes}

-- The codes other than kOk, which no constructor takes.
pub data Code : Type 0 where
  not_found corruption not_supported invalid_argument io_error : Code

pub data Status : Type 0 where
  ok : Status
  failed : Code → List ℕ → Status

unfoldable pub make_status : Code → List ℕ → List ℕ → Status
make_status code msg msg2 =
    failed code (msg ++ (if length msg2 == 0 then [] else codes ": " ++ msg2))

abbrev pub is_ok : Status → Bool
is_ok ok = true
is_ok (failed code msg) = false

unfoldable pub is_not_found : Status → Bool
is_not_found (failed not_found msg) = true
is_not_found _ = false

unfoldable pub is_corruption : Status → Bool
is_corruption (failed corruption msg) = true
is_corruption _ = false

unfoldable pub is_io_error : Status → Bool
is_io_error (failed io_error msg) = true
is_io_error _ = false

code_text : Code → List ℕ
code_text not_found = codes "NotFound: "
code_text corruption = codes "Corruption: "
code_text not_supported = codes "Not implemented: "
code_text invalid_argument = codes "Invalid argument: "
code_text io_error = codes "IO error: "

unfoldable pub to_string : Status → List ℕ
unfolding code_text
to_string ok = codes "OK"
to_string (failed code msg) = code_text code ++ msg
