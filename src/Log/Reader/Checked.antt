-- ===== src/Log/Reader/Checked.antt =====
-- What the reader returns has passed its checks.
use squirrel.Prelude.{ℕ, ◌+◌, ◌*◌, ◌%◌, ◌^◌, ◌≤◌, ◌≡◌, ◌≢◌, ap, sym, ◌∙◌, arith, true, false}
use squirrel.Prelude.{bit_and, bit_or, List}
use squirrel.Prelude.{length, take, drop, length-take, length-drop}
use squirrel.Coding.{little_endian, decode_fixed32, byte_at}
use squirrel.Crc32c.{Crc, value, unmask}
use squirrel.Env.{SequentialFile}
use squirrel.Log.Format.{header_size}
use squirrel.Log.Reader.Physical.{
  ReaderOptions, Reader, parse_header, crc_mismatch, eof_code, bad_record,
}

module _ (c : Crc) (s : SequentialFile) (o : ReaderOptions) where
  -- The length that a header states.
  abbrev pub stated_length : List ℕ → ℕ
  stated_length header =
      bit_or (bit_and (byte_at header 4) 0xff) (bit_and (byte_at header 5) 0xff * 2 ^ 8 % 2 ^ 32)

  checked :
      (fragment : List ℕ) (r : Reader c s o)
      → (parse_header c s o fragment r).0 ≢ eof_code
      → (parse_header c s o fragment r).0 ≢ bad_record
      → (header_size + stated_length r.buffer ≤ length r.buffer)
        × (crc_mismatch c s o r.buffer (stated_length r.buffer) ≡ false)
        × ((parse_header c s o fragment r).1
            ≡ take (stated_length r.buffer) (drop header_size r.buffer))
  unfolding parse_header
  checked fragment r not_eof not_bad = ground arith

  matches :
      (header : List ℕ) (len : ℕ)
      → o.checksum ≡ true
      → crc_mismatch c s o header len ≡ false
      → unmask (decode_fixed32 little_endian header) ≡ value c (take (1 + len) (drop 6 header))
  unfolding crc_mismatch
  matches header len on same = ground arith

  -- Where a reader that checks checksums finds a physical record in its buffer, that is, neither
  -- the end of the file nor a bad record, the fragment is as many bytes behind the header as the
  -- header states, all of them lie in the buffer, and the checksum in the header is the one of the
  -- type and the fragment.
  pub parse_header-checked :
      (fragment : List ℕ) (r : Reader c s o)
      → o.checksum ≡ true
      → (parse_header c s o fragment r).0 ≢ eof_code
      → (parse_header c s o fragment r).0 ≢ bad_record
      → let ptr = (parse_header c s o fragment r).1 in
        (length ptr ≡ stated_length r.buffer)
        × (header_size + length ptr ≤ length r.buffer)
        × (ptr ≡ take (length ptr) (drop header_size r.buffer))
        × (unmask (decode_fixed32 little_endian r.buffer)
            ≡ value c (take (1 + length ptr) (drop 6 r.buffer)))
  parse_header-checked fragment r on not_eof not_bad =
      let (fits, same, ptr_eq) = checked fragment r not_eof not_bad in
      let n = stated_length r.buffer in
      let size : length (parse_header c s o fragment r).1 ≡ n = omega (
        arith,
        ap length ptr_eq,
        length-take n (drop header_size r.buffer),
        length-drop header_size r.buffer,
        fits,
      ) in
      (
        size,
        omega (arith, size, fits),
        ptr_eq ∙ ap (λ k. take k (drop header_size r.buffer)) (sym size),
        matches r.buffer n on same ∙ ap (λ k. value c (take (1 + k) (drop 6 r.buffer))) (sym size),
      )
