-- ===== src/Log/Reader/Parse.antt =====
-- A physical record at the head of the buffer is parsed back.
use squirrel.Prelude.{
  ℕ, zero, suc, ◌+◌, ◌*◌, ◌/◌, ◌%◌, ◌^◌, ◌<◌, ◌≡◌, refl, sym, ◌∙◌, subst, arith, false,
}
use squirrel.Prelude.{bit_and, bit_or, List, [], ◌∷◌, ◌++◌, ltb, ◌==◌}
use squirrel.Prelude.{
  length, take, drop, length-append, drop-add, take-length_append, drop-length_append, ge→ltb,
}
use squirrel.Prelude.Bits.{and_255, or_high}
use squirrel.Coding.{little_endian, native_bytes, decode_fixed32, byte_at}
use squirrel.Coding.Fixed.{encode_fixed32_portable, decode_native32}
use squirrel.Crc32c.{Crc, mask, unmask}
use squirrel.Crc32c.Mask.{unmask-mask, mask-IsU32}
use squirrel.Env.{SequentialFile}
use squirrel.Log.Format.{RecordType, header_size}
use squirrel.Log.Writer.{record_header, type_crc}
use squirrel.Log.Layout.{frame}
use squirrel.Log.Reader.Physical.{ReaderOptions, Reader, parse_header, crc_mismatch, type_of_char}

stored_crc : Crc → RecordType → List ℕ → ℕ
stored_crc c t ptr = mask (c.extend (type_crc c t) ptr)

-- The header as the reader meets it.
frame-bytes :
    (c : Crc) (t : RecordType) (ptr rest : List ℕ)
    → length ptr < 2 ^ 16
    → frame c t ptr ++ rest
      ≡ native_bytes 4 (stored_crc c t ptr)
        ++ ((length ptr % 256) ∷ (length ptr / 256) ∷ t ∷ (ptr ++ rest))
unfolding record_header stored_crc
frame-bytes c t ptr rest h =
    rw (encode_fixed32_portable, and_255)
      (let n = length ptr in
        let high : n / 2 ^ 8 % 256 ≡ n / 256 = omega arith in rw high (unfold native_bytes in refl))

pub length-frame :
    (c : Crc) (t : RecordType) (ptr : List ℕ) → length (frame c t ptr) ≡ header_size + length ptr
unfolding record_header native_bytes
length-frame c t ptr = rw encode_fixed32_portable (omega arith)

module _ (c : Crc) (t : RecordType) (ptr rest : List ℕ) (small : length ptr < 2 ^ 16) where
  abbrev head : List ℕ
  head =
      native_bytes 4 (stored_crc c t ptr)
      ++ ((length ptr % 256) ∷ (length ptr / 256) ∷ t ∷ (ptr ++ rest))

  -- What the header says.
  header_fields :
      (byte_at head 4 ≡ length ptr % 256)
      × (byte_at head 5 ≡ length ptr / 256)
      × (byte_at head 6 ≡ t)
      × (drop 7 head ≡ ptr ++ rest)
      × (drop 6 head ≡ t ∷ (ptr ++ rest))
  unfolding native_bytes
  header_fields = (refl, refl, refl, refl, refl)

  length_field :
      bit_or (bit_and (length ptr % 256) 0xff) (bit_and (length ptr / 256) 0xff * 2 ^ 8 % 2 ^ 32)
      ≡ length ptr
  length_field = ground (
    arith,
    and_255 (length ptr % 256),
    and_255 (length ptr / 256),
    or_high 8 (length ptr / 256) (length ptr % 256) (omega arith),
  )

  crc_field : unmask (decode_fixed32 little_endian head) ≡ c.extend (type_crc c t) ptr
  crc_field =
      let stored : stored_crc c t ptr % 2 ^ 32 ≡ stored_crc c t ptr =
        unfold stored_crc in omega (arith, mask-IsU32 (c.extend (type_crc c t) ptr)) in
      rw
        (
          decode_native32 little_endian (stored_crc c t ptr)
              ((length ptr % 256) ∷ (length ptr / 256) ∷ t ∷ (ptr ++ rest)),
          stored,
        )
        (unfold stored_crc in unmask-mask (c.extend (type_crc c t) ptr) (c.extend-IsU32 _ _))

  crc_matches :
      (s : SequentialFile) (o : ReaderOptions) → crc_mismatch c s o head (length ptr) ≡ false
  unfolding crc_mismatch
  crc_matches s o =
      let one : 1 + length ptr ≡ suc (length ptr) = omega arith in
      let covered : take (1 + length ptr) (drop 6 head) ≡ t ∷ ptr =
        rw (one, header_fields.4) (take-length_append (t ∷ ptr) rest) in
      rw (crc_field, c.extend-append (t ∷ []) ptr, covered) (ground arith)

  parse_head :
      (s : SequentialFile) (o : ReaderOptions) (fragment : List ℕ) (r : Reader c s o)
      → 0 < t
      → t < 128
      → o.initial_offset ≡ zero
      → parse_header c s o fragment (record r { buffer = head })
        ≡ (t, ptr, record r { buffer = rest })
  unfolding parse_header
  parse_head s o fragment r pos char no_offset =
      let (low, high, kind, payload, crc_part) = header_fields in
      let total : length head ≡ header_size + length ptr + length rest =
        unfold native_bytes in omega (arith, length-append ptr rest) in
      let whole : ltb (length head) (header_size + length ptr) ≡ false =
        ge→ltb (length head) (header_size + length ptr) (omega (arith, total)) in
      let tail : drop (header_size + length ptr) head ≡ rest =
        drop-add header_size (length ptr) head ∙ rw payload (drop-length_append ptr rest) in
      let plain : type_of_char t ≡ t = ground arith in
      let used : (t == zero) ≡ false = ground arith in
      rw
        (
          low,
          high,
          kind,
          length_field,
          plain,
          whole,
          used,
          crc_matches s o,
          tail,
          payload,
          take-length_append ptr rest,
          no_offset,
        )
        (ground arith)

-- A frame at the head of the buffer, of a type that a writer writes and where nothing is skipped,
-- is returned as its type and payload, and the buffer moves past it; no corruption is reported.
pub parse_frame :
    (c : Crc) (s : SequentialFile) (o : ReaderOptions) (fragment : List ℕ) (r : Reader c s o)
    → (t : RecordType) (ptr rest : List ℕ) → r.buffer ≡ frame c t ptr ++ rest
    → length ptr < 2 ^ 16
    → 0 < t
    → t < 128
    → o.initial_offset ≡ zero
    → parse_header c s o fragment r ≡ (t, ptr, record r { buffer = rest })
parse_frame c s o fragment r t ptr rest e small pos char no_offset =
    subst
      (λ b.
        parse_header c s o fragment (record r { buffer = b })
        ≡ (t, ptr, record r { buffer = rest }))
      (sym (e ∙ frame-bytes c t ptr rest small))
      (parse_head c t ptr rest small s o fragment r pos char no_offset)
