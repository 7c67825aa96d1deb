-- ===== src/Logging/Runs.antt =====
-- Tests of printing and reading numbers, and the theorems at concrete inputs.
use squirrel.Prelude.{
  ◌≡◌, refl, arith, false, ◌&&◌, none, some, [], ◌∷◌, ◌++◌, ltb, leb, if◌then◌else◌, length, codes,
}
use squirrel.Logging.{
  decimal, number_to_string, escape_string, consume_decimal_number, max_uint64, decimal_loop,
}
use squirrel.Logging.Decimal.{consume_decimal_number-value, value_from}

prints_number : number_to_string 18446744073709551615 ≡ codes "18446744073709551615"
unfolding number_to_string squirrel.Logging.append_number_to decimal
prints_number = refl

prints_zero : number_to_string 0 ≡ codes "0"
unfolding number_to_string squirrel.Logging.append_number_to decimal
prints_zero = refl

escapes_control : escape_string (codes "a" ++ (10 ∷ (255 ∷ []))) ≡ codes "a\\x0a\\xff"
unfolding escape_string squirrel.Logging.append_escaped_string_to squirrel.Logging.escape_byte
escapes_control = refl

refuses_overflow :
    consume_decimal_number (codes "18446744073709551616")
    ≡ record { success = false; val = none; rest = codes "6" }
unfolding consume_decimal_number
refuses_overflow = refl

consume_decimal_number-value_example :
    ((consume_decimal_number (codes "18446744073709551616" ++ codes ".log")).success ≡ (
      leb (value_from 0 (codes "18446744073709551616")) max_uint64
      && ltb 0 (length (codes "18446744073709551616"))))
    × ((consume_decimal_number (codes "18446744073709551616" ++ codes ".log")).val ≡ (
        if leb (value_from 0 (codes "18446744073709551616")) max_uint64
        then some (value_from 0 (codes "18446744073709551616"))
        else none))
    × ((if leb (value_from 0 (codes "18446744073709551616")) max_uint64
          then (consume_decimal_number (codes "18446744073709551616" ++ codes ".log")).rest
          else codes ".log")
        ≡ codes ".log")
consume_decimal_number-value_example =
    consume_decimal_number-value (codes "18446744073709551616") (codes ".log") (ground arith) refl
