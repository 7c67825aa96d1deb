-- ===== src/Logging/Decimal.antt =====
-- Decimal numbers: what is consumed, for all digit strings, and that a printed number is read back.
use native.Mathlib.Nat.{pow-suc}
use squirrel.Prelude.{
  append_assoc, ℕ, zero, suc, ◌+◌, ◌-◌, ◌*◌, ◌/◌, ◌%◌, ◌^◌, ◌≤◌, ◌<◌, ◌≡◌, refl, sym, ap, ◌∙◌,
  arith,
}
use squirrel.Prelude.{
  true, false, ◌&&◌, none, some, List, [], ◌∷◌, ◌++◌, ltb, leb, if◌then◌else◌, length,
  length-append, replicate, All, All-append, Bool-cases, inl, inr,
}
use squirrel.Logging.{
  decimal_loop, decimal, max_uint64, is_digit, overflows, consume_loop, consume_decimal_number,
  finish_number,
}

abbrev pub IsDigit : ℕ → Type 0
IsDigit c = is_digit c ≡ true

-- What does not go on with a digit.
abbrev pub Ends : List ℕ → Type 0
Ends [] = Unit {0}
Ends (c ∷ rest) = is_digit c ≡ false

-- The number that digits stand for, behind those that make up `v`.
unfoldable pub value_from : ℕ → List ℕ → ℕ
value_from v [] = v
value_from v (c ∷ ds) = value_from (v * 10 + (c - b'0')) ds

value_from-ge : (v : ℕ) (ds : List ℕ) → v ≤ value_from v ds
unfolding value_from
value_from-ge v [] = omega arith
value_from-ge v (c ∷ ds) = omega (arith, value_from-ge (v * 10 + (c - b'0')) ds)

value_from-append :
    (v : ℕ) (ds es : List ℕ) → value_from v (ds ++ es) ≡ value_from (value_from v ds) es
unfolding value_from
value_from-append v [] es = refl
value_from-append v (c ∷ ds) es = value_from-append (v * 10 + (c - b'0')) ds es

stop :
    (v n : ℕ) (rest : List ℕ)
    → Ends rest
    → consume_loop v n rest ≡ record { number = some (v, n); rest = rest }
unfolding consume_loop
stop v n [] h = refl
stop v n (c ∷ rest) h = rw h refl

overflows-no :
    (v c : ℕ) → IsDigit c → v * 10 + (c - b'0') ≤ max_uint64 → overflows v (c - b'0') ≡ false
overflows-no v c d h = ground arith

overflows-yes :
    (v c : ℕ) → IsDigit c → max_uint64 < v * 10 + (c - b'0') → overflows v (c - b'0') ≡ true
overflows-yes v c d h = ground arith

step_exact :
    (v c : ℕ)
    → v * 10 + (c - b'0') ≤ max_uint64
    → (v * 10 % 2 ^ 64 + (c - b'0')) % 2 ^ 64 ≡ v * 10 + (c - b'0')
step_exact v c h = omega arith

consume_loop-digits :
    (v n : ℕ) (ds rest : List ℕ)
    → All IsDigit ds
    → Ends rest
    → v ≤ max_uint64
    → value_from v ds ≤ max_uint64
    → consume_loop v n (ds ++ rest)
      ≡ record { number = some (value_from v ds, n + length ds); rest = rest }
unfolding consume_loop value_from
consume_loop-digits v n [] rest d e h g =
    stop v n rest e ∙ ap (λ m. record { number = some (v, m); rest = rest }) (omega arith)
consume_loop-digits v n (c ∷ ds) rest d e h g =
    let low = value_from-ge (v * 10 + (c - b'0')) ds in
    rw (d.0, overflows-no v c d.0 (omega (arith, low)), step_exact v c (omega (arith, low)))
      (consume_loop-digits (v * 10 + (c - b'0')) (n + 1) ds rest d.1 e (omega (arith, low)) g
        ∙ ap (λ m. record { number = some (value_from (v * 10 + (c - b'0')) ds, m); rest = rest })
            (omega arith))

consume_loop-overflow :
    (v n : ℕ) (ds rest : List ℕ)
    → All IsDigit ds
    → v ≤ max_uint64
    → max_uint64 < value_from v ds
    → (consume_loop v n (ds ++ rest)).number ≡ none
unfolding consume_loop value_from
consume_loop-overflow v n [] rest d h g = absurd (omega arith)
consume_loop-overflow v n (c ∷ ds) rest d h g =
    elim (Bool-cases (leb (v * 10 + (c - b'0')) max_uint64)) [
      | inl fits ↦
          rw (d.0, overflows-no v c d.0 (ground arith), step_exact v c (ground arith))
            (consume_loop-overflow (v * 10 + (c - b'0')) (n + 1) ds rest d.1 (ground arith) g)
      | inr large ↦ rw (d.0, overflows-yes v c d.0 (ground arith)) refl
    ]

consume-fits :
    (ds rest : List ℕ)
    → All IsDigit ds
    → Ends rest
    → value_from 0 ds ≤ max_uint64
    → consume_decimal_number (ds ++ rest)
      ≡ record { success = ltb 0 (length ds); val = some (value_from 0 ds); rest = rest }
unfolding consume_decimal_number finish_number
consume-fits ds rest d e fits =
    rw (consume_loop-digits 0 0 ds rest d e (omega arith) fits) (ground arith)

consume-large :
    (ds rest : List ℕ)
    → All IsDigit ds
    → max_uint64 < value_from 0 ds
    → ((consume_decimal_number (ds ++ rest)).success ≡ false)
      × ((consume_decimal_number (ds ++ rest)).val ≡ none)
unfolding consume_decimal_number finish_number
consume-large ds rest d large =
    rw (consume_loop-overflow 0 0 ds rest d (omega arith) large) (refl, refl)

-- Behind digits that do not go on: the result is true exactly if there is a digit and the number
-- that they stand for fits a uint64_t. A number that fits is written (0 if there is no digit) and
-- the digits are consumed; one that does not fit is not written.
pub consume_decimal_number-value :
    (ds rest : List ℕ)
    → All IsDigit ds
    → Ends rest
    → ((consume_decimal_number (ds ++ rest)).success
        ≡ (leb (value_from 0 ds) max_uint64 && ltb 0 (length ds)))
      × ((consume_decimal_number (ds ++ rest)).val
          ≡ (if leb (value_from 0 ds) max_uint64 then some (value_from 0 ds) else none))
      × ((if leb (value_from 0 ds) max_uint64
            then (consume_decimal_number (ds ++ rest)).rest
            else rest)
          ≡ rest)
consume_decimal_number-value ds rest d e = elim (Bool-cases (leb (value_from 0 ds) max_uint64)) [
  | inl fits ↦ rw (fits, consume-fits ds rest d e (ground arith)) (refl, refl, refl)
  | inr large ↦
      let out = consume-large ds rest d (ground arith) in
      rw (large, out.0, out.1) (refl, refl, refl)
]

IsDigit-of : (d : ℕ) → d < 10 → IsDigit (b'0' + d)
IsDigit-of d h = ground arith

decimal_loop-digits : (places num : ℕ) → All IsDigit (decimal_loop places num)
unfolding decimal_loop
decimal_loop-digits zero num = tt
decimal_loop-digits (suc places) num = elim (Bool-cases (ltb num 10)) [
  | inl small ↦ rw small (IsDigit-of num (ground arith), tt)
  | inr large ↦ rw large (
      All-append IsDigit (decimal_loop places (num / 10)) ((b'0' + num % 10) ∷ [])
        (decimal_loop-digits places (num / 10)) (IsDigit-of (num % 10) (omega arith), tt))
]

decimal_loop-value :
    (places num : ℕ) → num < 10 ^ places → value_from 0 (decimal_loop places num) ≡ num
unfolding decimal_loop
decimal_loop-value zero num h = unfold value_from in omega arith
decimal_loop-value (suc places) num h = elim (Bool-cases (ltb num 10)) [
  | inl small ↦ rw small (unfold value_from in omega arith)
  | inr large ↦
      rw
        (
          large,
          value_from-append 0 (decimal_loop places (num / 10)) ((b'0' + num % 10) ∷ []),
          decimal_loop-value places (num / 10) (omega (arith, pow-suc 10 places)),
        )
        (unfold value_from in omega arith)
]

pub decimal-digits : (num : ℕ) → All IsDigit (decimal num)
unfolding decimal
decimal-digits num = decimal_loop-digits 20 num

pub length-decimal : (num : ℕ) → 0 < length (decimal num)
unfolding decimal decimal_loop
length-decimal num = elim (Bool-cases (ltb num 10)) [
  | inl small ↦ rw small (omega arith)
  | inr large ↦
      rw large (omega (arith, length-append (decimal_loop 19 (num / 10)) ((b'0' + num % 10) ∷ [])))
]

-- `%0*llu`: zeros in front, as many as it likes.
pub value_from-zeros :
    (k : ℕ) (ds : List ℕ) → value_from 0 (replicate k b'0' ++ ds) ≡ value_from 0 ds
unfolding value_from
value_from-zeros zero ds = refl
value_from-zeros (suc k) ds = value_from-zeros k ds

pub zeros-digits : (k : ℕ) → All IsDigit (replicate k b'0')
zeros-digits zero = tt
zeros-digits (suc k) = (refl, zeros-digits k)

-- A printed uint64_t is consumed as the number that it was, also with zeros in front, and what
-- stands behind it is left, if it does not begin with a digit.
pub consume-decimal :
    (num zeros : ℕ) (rest : List ℕ)
    → num < 2 ^ 64
    → Ends rest
    → consume_decimal_number (replicate zeros b'0' ++ (decimal num ++ rest))
      ≡ record { success = true; val = some num; rest = rest }
consume-decimal num zeros rest h e =
    let ds = replicate zeros b'0' ++ decimal num in
    let value : value_from 0 ds ≡ num =
      value_from-zeros zeros (decimal num)
      ∙ unfold decimal in decimal_loop-value 20 num (omega arith) in
    let digits : All IsDigit ds =
      All-append IsDigit (replicate zeros b'0') (decimal num) (zeros-digits zeros)
        (unfold decimal in decimal_loop-digits 20 num) in
    let some_digit : ltb 0 (length ds) ≡ true =
      ground (arith, length-append (replicate zeros b'0') (decimal num), length-decimal num) in
    sym (ap consume_decimal_number (append_assoc (replicate zeros b'0') (decimal num) rest))
    ∙ (consume-fits ds rest digits e (rw value (omega arith)) ∙ rw (value, some_digit) refl)
