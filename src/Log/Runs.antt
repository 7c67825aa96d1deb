-- ===== src/Log/Runs.antt =====
-- Runs of the log, over files that are lists of bytes.
use squirrel.Prelude.{ℕ, ◌≤◌, ◌+◌, ◌%◌, ◌^◌, ◌<◌, ◌≡◌, refl, ap, sym, ◌∙◌, arith, true}
use squirrel.Prelude.{
  some, List, [], ◌∷◌, ◌++◌, take, drop, length, replicate, length-replicate, codes,
}
use squirrel.Status.{ok}
use squirrel.Coding.{little_endian, decode_fixed32, native_value}
use squirrel.Crc32c.{Crc, value, unmask}
use squirrel.Log.Reader.Physical.{parse_header, crc_mismatch}
use squirrel.Log.Reader.Checked.{stated_length, parse_header-checked}
use squirrel.Env.{WritableFile, IsReliable, SequentialFile, IsReadable}
use squirrel.Log.Writer.{Writer, new_writer, reopen_writer, add_record}
use squirrel.Log.Writer.Loop.{Added, add_record-Added}
use squirrel.Log.Reader.Physical.{ReaderOptions, Reader, new_reader}
use squirrel.Log.Session.{add_records, read_records}
use squirrel.Log.RoundTrip.{Reopens, log_round_trip}

-- A checksum for the runs: the sum of the bytes.
sum : ℕ → List ℕ → ℕ
sum n [] = n % 2 ^ 32
sum n (b ∷ bs) = sum (n + b) bs

sum_mod : (n : ℕ) (b : List ℕ) → sum (n % 2 ^ 32) b ≡ sum n b
unfolding sum
sum_mod n [] = omega arith
sum_mod n (x ∷ b) =
    sym (sum_mod (n % 2 ^ 32 + x) b) ∙ ap (λ k. sum k b) (omega arith) ∙ sum_mod (n + x) b

sum_append : (n : ℕ) (a b : List ℕ) → sum (sum n a) b ≡ sum n (a ++ b)
unfolding sum
sum_append n [] b = sum_mod n b
sum_append n (x ∷ a) b = sum_append (n + x) a b

sum_bound : (n : ℕ) (a : List ℕ) → sum n a < 2 ^ 32
unfolding sum
sum_bound n [] = omega arith
sum_bound n (x ∷ a) = sum_bound (n + x) a

abbrev checksum : Crc
checksum = record { extend = sum; extend-append = sum_append 0; extend-IsU32 = sum_bound }

-- Files in memory.
abbrev appended : WritableFile
appended = record { File = List ℕ; append = λ data_ f. (ok, f ++ data_); flush = λ f. (ok, f) }

abbrev appended-IsReliable : IsReliable appended
appended-IsReliable = record {
  contents = λ f. f;
  append_ok = λ data_ f. (f ++ data_, refl, refl);
  flush_ok = λ f. (f, refl, refl);
}

abbrev consumed : SequentialFile
consumed = record {
  File = List ℕ;
  read = λ n f. (ok, take n f, drop n f);
  skip = λ n f. (ok, drop n f);
}

abbrev consumed-IsReadable : IsReadable consumed
consumed-IsReadable = record { left = λ f. f; read_ok = λ n f. (drop n f, refl, refl) }

abbrev reopened : Reopens appended appended-IsReliable consumed consumed-IsReadable
reopened = record { open_ = λ f. f; open-left = λ f. refl }

abbrev strict : ReaderOptions
strict = record { reporting = true; checksum = true; initial_offset = 0 }

-- A record that takes two blocks, and two short ones.
abbrev long : List ℕ
long = replicate 40000 7

log_round_trip_example :
    (w1 w2 : Writer checksum appended) × (r : Reader checksum consumed strict) × (add_records
        checksum appended
        (long ∷ codes "foo" ∷ [])
        (new_writer checksum appended [])
      ≡ some w1)
    × (add_records checksum appended
          (codes "bar" ∷ [])
          (reopen_writer checksum appended w1.dest (length w1.dest))
        ≡ some w2)
    × (read_records checksum consumed strict 40002 4 (new_reader checksum consumed strict w2.dest)
        ≡ some (long ∷ codes "foo" ∷ codes "bar" ∷ [], r))
    × (r.reports ≡ [])
log_round_trip_example =
    log_round_trip checksum appended appended-IsReliable consumed consumed-IsReadable reopened
      strict 40002 (long ∷ codes "foo" ∷ []) (codes "bar" ∷ []) [] refl refl (omega arith)
      (omega (arith, length-replicate {A = ℕ} 40000 7))

add_record-Added_example :
    Added checksum appended appended-IsReliable true
      (codes "foo")
      (new_writer checksum appended [])
      (add_record checksum appended (codes "foo") (new_writer checksum appended []))
add_record-Added_example =
    add_record-Added checksum appended appended-IsReliable (codes "foo")
      (new_writer checksum appended []) (omega arith)

-- A buffer that holds the frame of "foo".
abbrev framed : Reader checksum consumed strict
framed = record (new_reader checksum consumed strict []) {
  buffer = 0xd8 ∷ 0xea ∷ 0xc ∷ 0xa5 ∷ 3 ∷ 0 ∷ 1 ∷ codes "foo";
}

found_foo : (parse_header checksum consumed strict [] framed).0 ≡ 1
unfolding parse_header crc_mismatch unmask decode_fixed32 native_value sum
found_foo = refl

parse_header-checked_example :
    let ptr = (parse_header checksum consumed strict [] framed).1 in
    (length ptr ≡ stated_length checksum consumed strict framed.buffer)
    × (7 + length ptr ≤ length framed.buffer)
    × (ptr ≡ take (length ptr) (drop 7 framed.buffer))
    × (unmask (decode_fixed32 little_endian framed.buffer)
        ≡ value checksum (take (1 + length ptr) (drop 6 framed.buffer)))
parse_header-checked_example =
    parse_header-checked checksum consumed strict [] framed refl (λ e. cc found_foo)
      (λ e. cc found_foo)
