-- ===== src/Logging.antt =====
-- util/logging.cpp: numbers and escaped strings as text, and decimal numbers read back.
pub mod Decimal
pub mod Escape
mod Runs
use squirrel.Prelude.{ℕ, zero, suc, ◌+◌, ◌-◌, ◌*◌, ◌/◌, ◌%◌, ◌^◌, Bool, true, false, ◌&&◌, ◌||◌}
use squirrel.Prelude.{Option, none, some, List, [], ◌∷◌, ◌++◌, ltb, leb, ◌==◌, if◌then◌else◌, codes}

-- `%llu`: the decimal digits, of which a uint64_t has twenty at most.
unfoldable pub decimal_loop : ℕ → ℕ → List ℕ
decimal_loop zero num = []
decimal_loop (suc places) num =
    let front = decimal_loop places (num / 10) in
    if ltb num 10 then (b'0' + num) ∷ [] else front ++ ((b'0' + num % 10) ∷ [])

unfoldable pub decimal : ℕ → List ℕ
unfolding decimal_loop
decimal num = decimal_loop 20 num

unfoldable pub append_number_to : List ℕ → ℕ → List ℕ
append_number_to str num = str ++ decimal num

unfoldable pub number_to_string : ℕ → List ℕ
number_to_string num = append_number_to [] num

-- `%02x` of a byte.
unfoldable pub hex_digit : ℕ → ℕ
hex_digit d = if ltb d 10 then b'0' + d else b'a' + (d - 10)

unfoldable pub escape_byte : ℕ → List ℕ
unfolding hex_digit
escape_byte c =
    if leb b' ' c && leb c b'~'
    then c ∷ []
    else codes "\\x" ++ (hex_digit (c / 16) ∷ (hex_digit (c % 16) ∷ []))

unfoldable pub append_escaped_string_to : List ℕ → List ℕ → List ℕ
append_escaped_string_to str [] = str
append_escaped_string_to str (c ∷ value) = append_escaped_string_to (str ++ escape_byte c) value

unfoldable pub escape_string : List ℕ → List ℕ
escape_string value = append_escaped_string_to [] value

abbrev pub max_uint64 : ℕ
max_uint64 = 2 ^ 64 - 1

abbrev pub is_digit : ℕ → Bool
is_digit c = leb b'0' c && leb c b'9'

abbrev pub overflows : ℕ → ℕ → Bool
overflows v delta =
    ltb (max_uint64 / 10) v || ((v == max_uint64 / 10) && ltb (max_uint64 % 10) delta)

-- How the loop ends: with `v` and `digits`, or, at an overflow, in the middle of the function.
-- `rest` is what `in` is then.
pub record Consumed : Type 0 where
  pub number : Option (ℕ × ℕ)
  pub rest : List ℕ

unfoldable pub consume_loop : ℕ → ℕ → List ℕ → Consumed
consume_loop v digits [] = record { number = some (v, digits); rest = [] }
consume_loop v digits (c ∷ in_) =
    let delta = c - b'0' in
    let again = consume_loop ((v * 10 % 2 ^ 64 + delta) % 2 ^ 64) (digits + 1) in_ in
    if is_digit c
    then (if overflows v delta then record { number = none; rest = c ∷ in_ } else again)
    else record { number = some (v, digits); rest = c ∷ in_ }

-- The result, what is written to `*val` if anything is, and what `in` is afterwards.
pub record Parsed : Type 0 where
  pub success : Bool
  pub val : Option ℕ
  pub rest : List ℕ

unfoldable pub finish_number : Option (ℕ × ℕ) → List ℕ → Parsed
finish_number none rest = record { success = false; val = none; rest = rest }
finish_number (some (v, digits)) rest = record { success = ltb 0 digits; val = some v; rest = rest }

unfoldable pub consume_decimal_number : List ℕ → Parsed
unfolding consume_loop finish_number
consume_decimal_number in_ = let c = consume_loop 0 0 in_ in finish_number c.number c.rest
