-- ===== src/FileName/Parse.antt =====
-- The names that are made are parsed as what they are.
use squirrel.Prelude.{ℕ, ◌+◌, ◌-◌, ◌^◌, ◌<◌, ◌≡◌, ◌≢◌, refl, sym, ap, ◌∙◌, arith}
use squirrel.Prelude.{
  true, false, some, List, [], ◌∷◌, ◌++◌, length, drop, replicate, codes, append_assoc, All,
  All-append, length-append, append-nil, drop-append,
}
use squirrel.Slice.{slice_eq, starts_with, memcmp}
use squirrel.Logging.{decimal, consume_decimal_number}
use squirrel.Logging.Decimal.{
  Ends, IsDigit, consume-decimal, zeros-digits, decimal-digits, length-decimal,
}
use squirrel.FileName.{
  log_file, db_lock_file, table_file, descriptor_file, current_file, temp_file, info_log_file,
}
use squirrel.FileName.{
  padded, numbered, in_directory, parse_file_name, descriptor_of, numbered_of, with_number,
  type_of_suffix,
}
use squirrel.FileName.{
  make_file_name, log_file_name, table_file_name, sst_table_file_name, descriptor_file_name,
  temp_file_name, current_file_name, lock_file_name, info_log_file_name, old_info_log_file_name,
}

slice_eq-first : (c d : ℕ) (xs ys : List ℕ) → c ≢ d → slice_eq (c ∷ xs) (d ∷ ys) ≡ false
unfolding slice_eq memcmp
slice_eq-first c d xs ys h = ground arith

starts_with-first : (c d : ℕ) (xs ys : List ℕ) → c ≢ d → starts_with (c ∷ xs) (d ∷ ys) ≡ false
unfolding starts_with memcmp
starts_with-first c d xs ys h = ground arith

-- A name that begins with a digit is none of the fixed ones.
parse-digit :
    (c : ℕ) (fname : List ℕ)
    → IsDigit c
    → parse_file_name (c ∷ fname) ≡ numbered_of (consume_decimal_number (c ∷ fname))
unfolding parse_file_name
parse-digit c fname d =
    let below : c < b'C' = ground arith in
    rw
      (
        slice_eq-first c b'C' fname (codes "URRENT") (omega arith),
        slice_eq-first c b'L' fname (codes "OCK") (omega arith),
        slice_eq-first c b'L' fname (codes "OG") (omega arith),
        slice_eq-first c b'L' fname (codes "OG.old") (omega arith),
        starts_with-first c b'M' fname (codes "ANIFEST-") (omega arith),
      )
      refl

parse-digits :
    (ds rest : List ℕ)
    → All IsDigit ds
    → 0 < length ds
    → parse_file_name (ds ++ rest) ≡ numbered_of (consume_decimal_number (ds ++ rest))
parse-digits [] rest d h = absurd (omega arith)
parse-digits (c ∷ ds) rest d h = parse-digit c (ds ++ rest) d.0

padded-digits : (n : ℕ) → All IsDigit (padded n)
unfolding padded
padded-digits n =
    All-append IsDigit (replicate (6 - length (decimal n)) b'0') (decimal n)
      (zeros-digits (6 - length (decimal n))) (decimal-digits n)

length-padded : (n : ℕ) → 0 < length (padded n)
unfolding padded
length-padded n =
    omega
      (arith, length-append (replicate (6 - length (decimal n)) b'0') (decimal n), length-decimal n)

consume-padded :
    (n : ℕ) (rest : List ℕ)
    → n < 2 ^ 64
    → Ends rest
    → consume_decimal_number (padded n ++ rest)
      ≡ record { success = true; val = some n; rest = rest }
unfolding padded
consume-padded n rest h e =
    ap consume_decimal_number
      (append_assoc (replicate (6 - length (decimal n)) b'0') (decimal n) rest)
    ∙ consume-decimal n (6 - length (decimal n)) rest h e

parse-numbered :
    (n : ℕ) (suffix : List ℕ)
    → n < 2 ^ 64
    → parse_file_name (numbered n suffix) ≡ with_number (some n) (type_of_suffix (b'.' ∷ suffix))
unfolding numbered numbered_of
parse-numbered n suffix h =
    parse-digits (padded n) (b'.' ∷ suffix) (padded-digits n) (length-padded n)
    ∙ rw (consume-padded n (b'.' ∷ suffix) h refl) refl

parse-manifest :
    (n : ℕ)
    → n < 2 ^ 64
    → parse_file_name (codes "MANIFEST-" ++ padded n) ≡ some (n, descriptor_file)
unfolding parse_file_name
parse-manifest n h =
    let read = ap consume_decimal_number (sym (append-nil (padded n))) ∙ consume-padded n [] h tt in
    let known : starts_with (codes "MANIFEST-" ++ padded n) (codes "MANIFEST-") ≡ true =
      unfold starts_with memcmp in ground arith in
    rw
      (
        slice_eq-first b'M' b'C' (codes "ANIFEST-" ++ padded n) (codes "URRENT") (omega arith),
        slice_eq-first b'M' b'L' (codes "ANIFEST-" ++ padded n) (codes "OCK") (omega arith),
        slice_eq-first b'M' b'L' (codes "ANIFEST-" ++ padded n) (codes "OG") (omega arith),
        slice_eq-first b'M' b'L' (codes "ANIFEST-" ++ padded n) (codes "OG.old") (omega arith),
        known,
        read,
      )
      (unfold descriptor_of in refl)

pub behind_directory :
    (dbname name : List ℕ) → drop (length dbname + 1) (in_directory dbname name) ≡ name
unfolding in_directory
behind_directory dbname name =
    drop-append (length dbname + 1) dbname (codes "/" ++ name) (omega arith)
    ∙ let one : length dbname + 1 - length dbname ≡ 1 = omega arith in rw one refl

-- `ParseFileName` takes the name without its directory. From every name that is made for a database
-- and a uint64_t it reads the number and the type: a table has either suffix, and both info logs
-- are of one type and have number 0, as have the current file and the lock.
pub parse-make :
    (dbname : List ℕ) (n : ℕ)
    → n < 2 ^ 64
    → let parse = λ (name : List ℕ). parse_file_name (drop (length dbname + 1) name) in
      (parse (log_file_name dbname n) ≡ some (n, log_file))
      × (parse (table_file_name dbname n) ≡ some (n, table_file))
      × (parse (sst_table_file_name dbname n) ≡ some (n, table_file))
      × (parse (temp_file_name dbname n) ≡ some (n, temp_file))
      × (parse (descriptor_file_name dbname n) ≡ some (n, descriptor_file))
      × (parse (current_file_name dbname) ≡ some (0, current_file))
      × (parse (lock_file_name dbname) ≡ some (0, db_lock_file))
      × (parse (info_log_file_name dbname) ≡ some (0, info_log_file))
      × (parse (old_info_log_file_name dbname) ≡ some (0, info_log_file))
unfolding make_file_name log_file_name table_file_name sst_table_file_name temp_file_name
    descriptor_file_name current_file_name lock_file_name info_log_file_name old_info_log_file_name
parse-make dbname n h = (
  at _
      ∙ (parse-numbered n (codes "log") h
          ∙ unfold type_of_suffix with_number slice_eq memcmp in refl),
  at _
      ∙ (parse-numbered n (codes "ldb") h
          ∙ unfold type_of_suffix with_number slice_eq memcmp in refl),
  at _
      ∙ (parse-numbered n (codes "sst") h
          ∙ unfold type_of_suffix with_number slice_eq memcmp in refl),
  at _
      ∙ (parse-numbered n (codes "dbtmp") h
          ∙ unfold type_of_suffix with_number slice_eq memcmp in refl),
  at _ ∙ parse-manifest n h,
  at _ ∙ unfold parse_file_name slice_eq memcmp in refl,
  at _ ∙ unfold parse_file_name slice_eq memcmp in refl,
  at _ ∙ unfold parse_file_name slice_eq memcmp in refl,
  at _ ∙ unfold parse_file_name slice_eq memcmp in refl,
)
  where
    at :
        (name : List ℕ)
        → parse_file_name (drop (length dbname + 1) (in_directory dbname name))
          ≡ parse_file_name name
    at name = ap parse_file_name (behind_directory dbname name)

-- Two numbers do not share a name.
pub padded_injective : (n m : ℕ) → n < 2 ^ 64 → m < 2 ^ 64 → padded n ≡ padded m → n ≡ m
padded_injective n m hn hm e =
    let read =
      sym (consume-padded n [] hn tt)
      ∙ (ap (λ p. consume_decimal_number (p ++ [])) e ∙ consume-padded m [] hm tt) in
    cc read
