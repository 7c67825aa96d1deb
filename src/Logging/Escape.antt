-- ===== src/Logging/Escape.antt =====
-- Escaped strings.
use squirrel.Prelude.{ℕ, ◌≤◌, arith}
use squirrel.Prelude.{List, [], ◌∷◌, ◌++◌, All, All-append}
use squirrel.Coding.{IsByte}
use squirrel.Logging.{escape_byte, hex_digit, append_escaped_string_to, escape_string}

abbrev pub IsPrintable : ℕ → Type 0
IsPrintable c = (b' ' ≤ c) × (c ≤ b'~')

escape_byte-IsPrintable : (c : ℕ) → IsByte c → All IsPrintable (escape_byte c)
unfolding escape_byte hex_digit
escape_byte-IsPrintable c h = ground arith

append-IsPrintable :
    (str value : List ℕ)
    → All IsPrintable str
    → All IsByte value
    → All IsPrintable (append_escaped_string_to str value)
unfolding append_escaped_string_to
append-IsPrintable str [] h g = h
append-IsPrintable str (c ∷ value) h g =
    append-IsPrintable (str ++ escape_byte c) value
      (All-append IsPrintable str (escape_byte c) h (escape_byte-IsPrintable c g.0)) g.1

-- An escaped string has printable characters only, whatever the bytes are.
pub escape_string-IsPrintable :
    (value : List ℕ) → All IsByte value → All IsPrintable (escape_string value)
unfolding escape_string
escape_string-IsPrintable value h = append-IsPrintable [] value tt h
