-- ===== src/Table/Format/RoundTrip.antt =====
-- Handles and footers are read back.
use squirrel.Prelude.{ℕ, ◌-◌, ◌≤◌, ◌≡◌, refl, ap, sym, ◌∙◌, arith}
use squirrel.Prelude.{some, List, [], ◌++◌, length, drop, replicate, append_assoc}
use squirrel.Prelude.{length-append, length-replicate, take-of_le, drop-length_append, drop-add}
use squirrel.Coding.{
  little_endian, encode_varint64, put_varint64, get_varint64, put_fixed32, native_bytes, IsU64,
}
use squirrel.Coding.Fixed.{encode_fixed32_portable, decode_native32}
use squirrel.Coding.Varint.{length-encode_varint64}
use squirrel.Coding.Decode.{get-put_varint64}
use squirrel.Status.{ok}
use squirrel.Table.Format.{
  BlockHandle, Footer, encode_handle, decode_handle, decode_offset, decode_size, encode_footer,
  decode_footer,
}
use squirrel.Table.Format.{magic_of, table_magic_number, encoded_length, resize}

-- The fields are uint64_t.
abbrev pub IsHandle : BlockHandle → Type 0
IsHandle h = IsU64 h.offset × IsU64 h.size

handle_bytes : BlockHandle → List ℕ
handle_bytes h = encode_varint64 h.offset ++ encode_varint64 h.size

encode_handle-bytes : (h : BlockHandle) (dst : List ℕ) → encode_handle h dst ≡ dst ++ handle_bytes h
unfolding encode_handle put_varint64 handle_bytes
encode_handle-bytes h dst = append_assoc dst (encode_varint64 h.offset) (encode_varint64 h.size)

get-varint64 :
    (v : ℕ) (rest : List ℕ) → IsU64 v → get_varint64 (encode_varint64 v ++ rest) ≡ some (v, rest)
unfolding put_varint64
get-varint64 v rest h = get-put_varint64 v rest h

decode-handle_bytes :
    (h old : BlockHandle) (rest : List ℕ)
    → IsHandle h
    → decode_handle old (handle_bytes h ++ rest) ≡ (ok, h, rest)
unfolding decode_handle decode_offset decode_size handle_bytes
decode-handle_bytes h old rest valid =
    rw
      (
        append_assoc (encode_varint64 h.offset) (encode_varint64 h.size) rest,
        get-varint64 h.offset (encode_varint64 h.size ++ rest) valid.0,
        get-varint64 h.size rest valid.1,
      )
      refl

-- `DecodeFrom` reads back the block handle that `EncodeTo` wrote, and leaves what follows it.
pub decode-encode_handle :
    (h old : BlockHandle) (rest : List ℕ)
    → IsHandle h
    → decode_handle old (encode_handle h [] ++ rest) ≡ (ok, h, rest)
decode-encode_handle h old rest valid =
    rw (encode_handle-bytes h []) (decode-handle_bytes h old rest valid)

length-handle_bytes : (h : BlockHandle) → IsHandle h → length (handle_bytes h) ≤ 20
unfolding handle_bytes
length-handle_bytes h valid = omega (
  arith,
  length-append (encode_varint64 h.offset) (encode_varint64 h.size),
  length-encode_varint64 h.offset valid.0,
  length-encode_varint64 h.size valid.1,
)

magic_bytes : List ℕ
magic_bytes = native_bytes 4 0x8b80fb57 ++ native_bytes 4 0xdb477524

resize_longer :
    (n : ℕ) (dst : List ℕ) → length dst ≤ n → resize n dst ≡ dst ++ replicate (n - length dst) 0
unfolding resize
resize_longer n dst h = rw (take-of_le n dst h)

footer_padding : Footer → List ℕ
footer_padding f =
    replicate (40 - length (handle_bytes f.metaindex_handle ++ handle_bytes f.index_handle)) 0

abbrev pub IsFooter : Footer → Type 0
IsFooter f = IsHandle f.metaindex_handle × IsHandle f.index_handle

length-handles :
    (f : Footer)
    → IsFooter f
    → length (handle_bytes f.metaindex_handle ++ handle_bytes f.index_handle) ≤ 40
length-handles f valid = omega (
  arith,
  length-append (handle_bytes f.metaindex_handle) (handle_bytes f.index_handle),
  length-handle_bytes f.metaindex_handle valid.0,
  length-handle_bytes f.index_handle valid.1,
)

encode_footer-bytes :
    (f : Footer)
    → IsFooter f
    → encode_footer f []
      ≡ ((handle_bytes f.metaindex_handle ++ handle_bytes f.index_handle) ++ footer_padding f)
        ++ magic_bytes
unfolding encode_footer footer_padding magic_bytes put_fixed32
encode_footer-bytes f valid =
    let m = handle_bytes f.metaindex_handle in
    let i = handle_bytes f.index_handle in
    rw
      (
        encode_handle-bytes f.metaindex_handle [],
        encode_handle-bytes f.index_handle m,
        resize_longer 40 (m ++ i) (length-handles f valid),
        encode_fixed32_portable,
        encode_fixed32_portable,
      )
      (append_assoc ((m ++ i) ++ replicate (40 - length (m ++ i)) 0) (native_bytes 4 0x8b80fb57)
        (native_bytes 4 0xdb477524))

length-padded :
    (f : Footer)
    → IsFooter f
    → length ((handle_bytes f.metaindex_handle ++ handle_bytes f.index_handle) ++ footer_padding f)
      ≡ 40
unfolding footer_padding
length-padded f valid =
    let handles = handle_bytes f.metaindex_handle ++ handle_bytes f.index_handle in
    omega (
      arith,
      length-handles f valid,
      length-append handles (replicate (40 - length handles) 0),
      length-replicate {A = ℕ} (40 - length handles) 0,
    )

magic-read :
    (padded rest : List ℕ)
    → length padded ≡ 40
    → magic_of (padded ++ (magic_bytes ++ rest)) ≡ table_magic_number
unfolding magic_of magic_bytes
magic-read padded rest e =
    let lo = native_bytes 4 0x8b80fb57 in
    let hi = native_bytes 4 0xdb477524 in
    let first : drop 40 (padded ++ ((lo ++ hi) ++ rest)) ≡ (lo ++ hi) ++ rest =
      ap (λ k. drop k (padded ++ ((lo ++ hi) ++ rest))) (sym e)
      ∙ drop-length_append padded ((lo ++ hi) ++ rest) in
    let second : drop 44 (padded ++ ((lo ++ hi) ++ rest)) ≡ hi ++ rest =
      drop-add 40 4 (padded ++ ((lo ++ hi) ++ rest))
      ∙ ap (drop 4) first
      ∙ (unfold native_bytes in refl) in
    rw
      (
        first,
        second,
        append_assoc lo hi rest,
        decode_native32 little_endian 0x8b80fb57 (hi ++ rest),
        decode_native32 little_endian 0xdb477524 rest,
      )
      refl

-- `DecodeFrom` reads back the footer that `EncodeTo` wrote into an empty string, whose length is
-- `kEncodedLength`, and leaves what follows it.
pub decode-encode_footer :
    (f old : Footer) (rest : List ℕ)
    → IsFooter f
    → (decode_footer old (encode_footer f [] ++ rest) ≡ (ok, f, rest))
      × (length (encode_footer f []) ≡ encoded_length)
decode-encode_footer f old rest valid = (
  rw (encode_footer-bytes f valid, append_assoc padded magic_bytes rest)
      (unfold decode_footer in
        rw
          (
            magic-read padded rest (length-padded f valid),
            handles,
            decode-handle_bytes f.index_handle old.index_handle
                (footer_padding f ++ (magic_bytes ++ rest)) valid.1,
            over,
          )
          refl),
  rw (encode_footer-bytes f valid)
      (omega (arith, length-append padded magic_bytes, length-padded f valid, magic_length)),
)
  where
    m : List ℕ
    m = handle_bytes f.metaindex_handle

    i : List ℕ
    i = handle_bytes f.index_handle

    padded : List ℕ
    padded = (m ++ i) ++ footer_padding f

    tail : List ℕ
    tail = magic_bytes ++ rest

    magic_length : length magic_bytes ≡ 8
    magic_length = unfold magic_bytes native_bytes in refl

    handles :
        decode_handle old.metaindex_handle (padded ++ (magic_bytes ++ rest))
        ≡ (ok, f.metaindex_handle, i ++ (footer_padding f ++ (magic_bytes ++ rest)))
    handles =
        rw
          (
            append_assoc (m ++ i) (footer_padding f) tail,
            append_assoc m i (footer_padding f ++ tail),
          )
          (decode-handle_bytes f.metaindex_handle old.metaindex_handle
            (i ++ (footer_padding f ++ tail)) valid.0)

    over : drop 48 (padded ++ (magic_bytes ++ rest)) ≡ rest
    over =
        drop-add 40 8 (padded ++ tail)
        ∙ ap (λ k. drop 8 (drop k (padded ++ tail))) (sym (length-padded f valid))
        ∙ ap (drop 8) (drop-length_append padded tail)
        ∙ ap (λ k. drop k tail) (sym magic_length)
        ∙ drop-length_append magic_bytes rest
