-- ===== src/Table/FilterBlock/Reader.antt =====
-- What the reader of a filter block reads of a finished one.
use squirrel.Prelude.{
  ℕ, zero, suc, ◌+◌, ◌-◌, ◌*◌, ◌/◌, ◌^◌, ◌≤◌, ◌<◌, ◌≡◌, refl, sym, ap, ◌∙◌, arith, true, false,
}
use squirrel.Prelude.{
  List, [], ◌∷◌, ◌++◌, All, append_assoc, append-nil, length, length-append, get_or, take, drop,
  drop-add, ltb, leb, drop-length_append,
}
use squirrel.Coding.{
  little_endian, native_bytes, encode_fixed32, put_fixed32, decode_fixed32, byte_at,
}
use squirrel.Coding.Fixed.{decode-encode_fixed32}
use squirrel.Bloom.{FilterPolicy}
use squirrel.Table.FilterBlock.{
  put_offsets, new_filter_block_reader, reader_key_may_match, filter_base,
}

abbrev pub word : ℕ → List ℕ
word v = encode_fixed32 little_endian v

abbrev pub encoded : List ℕ → List ℕ
encoded [] = []
encoded (o ∷ offsets) = word o ++ encoded offsets

length-word : (v : ℕ) → length (word v) ≡ 4
unfolding encode_fixed32 native_bytes
length-word v = refl

length-encoded : (offsets : List ℕ) → length (encoded offsets) ≡ 4 * length offsets
length-encoded [] = refl
length-encoded (o ∷ offsets) =
    omega (arith, length-append (word o) (encoded offsets), length-word o, length-encoded offsets)

pub put_offsets-encoded : (dst offsets : List ℕ) → put_offsets dst offsets ≡ dst ++ encoded offsets
unfolding put_offsets put_fixed32
put_offsets-encoded dst [] = sym (append-nil dst)
put_offsets-encoded dst (o ∷ offsets) =
    put_offsets-encoded (dst ++ word o) offsets ∙ append_assoc dst (word o) (encoded offsets)

pub encoded-append : (xs : List ℕ) (v : ℕ) → encoded (xs ++ (v ∷ [])) ≡ encoded xs ++ word v
encoded-append [] v = append-nil (word v)
encoded-append (x ∷ xs) v =
    ap (λ t. word x ++ t) (encoded-append xs v) ∙ sym (append_assoc (word x) (encoded xs) (word v))

decode-encoded :
    (offsets rest : List ℕ) (i : ℕ)
    → i < length offsets
    → All (λ o. o < 2 ^ 32) offsets
    → decode_fixed32 little_endian (drop (i * 4) (encoded offsets ++ rest)) ≡ get_or offsets i 0
decode-encoded [] rest i lt small = absurd (omega (arith, lt))
decode-encoded (o ∷ offsets) rest zero lt small =
    ap (decode_fixed32 little_endian) (append_assoc (word o) (encoded offsets) rest)
    ∙ decode-encode_fixed32 little_endian little_endian o (encoded offsets ++ rest) small.0
decode-encoded (o ∷ offsets) rest (suc i) lt small =
    let all = encoded (o ∷ offsets) ++ rest in
    let step : suc i * 4 ≡ 4 + i * 4 = omega arith in
    let past : drop 4 all ≡ encoded offsets ++ rest =
      ap (drop 4) (append_assoc (word o) (encoded offsets) rest)
      ∙ (ap (λ n. drop n (word o ++ (encoded offsets ++ rest))) (sym (length-word o))
          ∙ drop-length_append (word o) (encoded offsets ++ rest)) in
    ap (λ n. decode_fixed32 little_endian (drop n all)) step
    ∙ (ap (decode_fixed32 little_endian) (drop-add 4 (i * 4) all ∙ ap (drop (i * 4)) past)
        ∙ decode-encoded offsets rest i (omega (arith, lt)) small.1)

byte_at-last : (xs : List ℕ) (v : ℕ) → byte_at (xs ++ (v ∷ [])) (length xs) ≡ v
byte_at-last [] v = refl
byte_at-last (x ∷ xs) v = byte_at-last xs v

get_or-last : (xs : List ℕ) (v : ℕ) → get_or (xs ++ (v ∷ [])) (length xs) 0 ≡ v
get_or-last xs v = byte_at-last xs v

pub All-last :
    (xs : List ℕ) (v n : ℕ) → All (λ o. o < n) xs → v < n → All (λ o. o < n) (xs ++ (v ∷ []))
All-last [] v n a p = (p, tt)
All-last (x ∷ xs) v n a p = (a.0, All-last xs v n a.1 p)

take-prefix : (m : ℕ) (xs ys : List ℕ) → m ≤ length xs → take m (xs ++ ys) ≡ take m xs
take-prefix zero xs ys h = refl
take-prefix (suc m) [] ys h = absurd (omega (arith, h))
take-prefix (suc m) (x ∷ xs) ys h = ap (λ t. x ∷ t) (take-prefix m xs ys (omega (arith, h)))

part-append :
    (s m : ℕ) (xs ys : List ℕ) → s + m ≤ length xs → take m (drop s (xs ++ ys)) ≡ take m (drop s xs)
part-append zero m xs ys h = take-prefix m xs ys (omega (arith, h))
part-append (suc s) m [] ys h = absurd (omega (arith, h))
part-append (suc s) m (x ∷ xs) ys h = part-append s m xs ys (omega (arith, h))

-- A block of filters `filters` with their offsets.
module _ (filters offsets : List ℕ) where
  abbrev pub ends : List ℕ
  ends = offsets ++ (length filters ∷ [])

  abbrev pub contents_of : List ℕ
  contents_of = filters ++ (encoded ends ++ (11 ∷ []))

  size : length contents_of ≡ length filters + 4 * length offsets + 5
  size = omega (
    arith,
    length-append filters (encoded ends ++ (11 ∷ [])),
    length-append (encoded ends) (11 ∷ []),
    length-encoded ends,
    length-append offsets (length filters ∷ []),
  )

  -- The filter of a range of 2 KB.
  abbrev pub filter_at : ℕ → List ℕ
  filter_at i = take (get_or ends (suc i) 0 - get_or ends i 0) (drop (get_or ends i 0) filters)

  module _ (small : All (λ o. o < 2 ^ 32) offsets) (fits : length filters < 2 ^ 32) where
    offset_at :
        (i : ℕ)
        → i ≤ length offsets
        → decode_fixed32 little_endian (drop (length filters + i * 4) contents_of) ≡ get_or ends i 0
    offset_at i le =
        ap (decode_fixed32 little_endian) (
          drop-add (length filters) (i * 4) contents_of
          ∙ ap (drop (i * 4)) (drop-length_append filters (encoded ends ++ (11 ∷ []))))
        ∙ decode-encoded ends (11 ∷ []) i
            (omega (arith, le, length-append offsets (length filters ∷ [])))
            (All-last offsets (length filters) (2 ^ 32) small fits)

    reader_of : new_filter_block_reader contents_of ≡ record {
      data_ = contents_of;
      offset = length filters;
      num = length offsets;
      base_lg = 11;
    }
    unfolding new_filter_block_reader
    reader_of =
        let n = length filters in
        let m = length offsets in
        let c = contents_of in
        let short : length c - 1 ≡ length (filters ++ encoded ends) = omega (
          arith,
          size,
          length-append filters (encoded ends),
          length-encoded ends,
          length-append offsets (n ∷ []),
        ) in
        let last : byte_at c (length c - 1) ≡ 11 =
          ap (byte_at c) short
          ∙ (ap (λ x. byte_at x (length (filters ++ encoded ends)))
                (sym (append_assoc filters (encoded ends) (11 ∷ [])))
              ∙ byte_at-last (filters ++ encoded ends) 11) in
        let last_word : decode_fixed32 little_endian (drop (length c - 5) c) ≡ n =
          ap (λ x. decode_fixed32 little_endian (drop x c)) (omega (arith, size))
          ∙ (offset_at m (omega arith) ∙ get_or-last offsets n) in
        let long : ltb (length c) 5 ≡ false = ground (arith, size) in
        let inside : ltb (length c - 5) n ≡ false = ground (arith, size) in
        let count : (length c - 5 - n) / 4 ≡ m = omega (arith, size) in
        rw (long, last_word, inside, last, count) refl

    pub key_may_match-contents :
        (policy : FilterPolicy) (block_offset : ℕ) (key : List ℕ)
        → block_offset / filter_base < length offsets
        → get_or ends (block_offset / filter_base) 0
          ≤ get_or ends (suc (block_offset / filter_base)) 0
        → get_or ends (suc (block_offset / filter_base)) 0 ≤ length filters
        → reader_key_may_match policy block_offset key (new_filter_block_reader contents_of)
          ≡ policy.key_may_match key (filter_at (block_offset / filter_base))
    unfolding reader_key_may_match
    key_may_match-contents policy block_offset key lt ordered bounded =
        let i = block_offset / filter_base in
        let s = get_or ends i 0 in
        let e = get_or ends (suc i) 0 in
        let n = length filters in
        let step : n + suc i * 4 ≡ n + i * 4 + 4 = omega arith in
        let at_start : decode_fixed32 little_endian (drop (n + i * 4) contents_of) ≡ s =
          offset_at i (omega (arith, lt)) in
        let at_end : decode_fixed32 little_endian (drop (n + i * 4 + 4) contents_of) ≡ e =
          ap (λ m. decode_fixed32 little_endian (drop m contents_of)) (sym step)
          ∙ offset_at (suc i) (omega (arith, lt)) in
        let present : ltb i (length offsets) ≡ true = ground (arith, lt) in
        let right : leb s e ≡ true = ground (arith, ordered) in
        let inside : leb e n ≡ true = ground (arith, bounded) in
        rw (reader_of, at_start, at_end, present, right, inside)
          (ap (policy.key_may_match key) (
            part-append s (e - s) filters (encoded ends ++ (11 ∷ []))
              (omega (arith, ordered, bounded))))
