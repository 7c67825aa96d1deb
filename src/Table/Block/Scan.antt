-- ===== src/Table/Block/Scan.antt =====
-- A scan of a block from its first entry on.
use squirrel.Prelude.{
  ℕ, zero, suc, ◌+◌, ◌-◌, ◌%◌, ◌^◌, ◌≤◌, ◌<◌, ◌≡◌, refl, ap, sym, ◌∙◌, arith, Bool, true, false,
}
use squirrel.Prelude.{some, List, [], ◌∷◌, ◌++◌, length, take, drop, ltb, leb, if◌then◌else◌}
use squirrel.Prelude.{
  length-append, length-drop, length-take, drop-length_append, drop-add, ge→ltb, lt→ltb,
}
use squirrel.Table.Block.{Entry, decode_entry}
use squirrel.Table.Block.Entries.{Restores}
use squirrel.Table.Block.Iter.{
  Iter, valid, next_entry_offset, parse_next_key, take_entry, next, advance_restart,
}

-- A key and its value.
abbrev pub Pair : Type 0
Pair = List ℕ × List ℕ

-- `Encoded limit last pairs bytes`: behind the key `last`, `bytes` are entries for `pairs`, in a
-- block of less than `limit` bytes.
pub data Encoded : List ℕ → List Pair → List ℕ → Type 0 where
  done : (last : List ℕ) → Encoded last [] []
  entry :
      (last key value : List ℕ) (pairs : List Pair) (bytes rest : List ℕ) (e : Entry)
      → 0 < length bytes
      → decode_entry (bytes ++ rest) ≡ some e
      → length e.rest ≤ length (bytes ++ rest)
      → Restores last key value rest e
      → Encoded key pairs rest
      → Encoded last ((key, value) ∷ pairs) (bytes ++ rest)

take-nil : (n : ℕ) → take {A = ℕ} n [] ≡ []
take-nil zero = refl
take-nil (suc n) = refl

drop-take : (k n : ℕ) (l : List ℕ) → drop k (take n l) ≡ take (n - k) (drop k l)
drop-take zero n l = ap (λ m. take m l) {x = n} (omega arith)
drop-take (suc k) zero l = ap (λ m. take m (drop (suc k) l)) {x = zero} (omega arith)
drop-take (suc k) (suc n) [] = sym (take-nil (suc n - suc k))
drop-take (suc k) (suc n) (x ∷ l) =
    drop-take k n l ∙ ap (λ m. take m (drop k l)) {x = n - k} (omega arith)

module _ (data_ : List ℕ) (restarts num_restarts : ℕ) where
  -- Where an iterator stands whose next entry is the first of `bytes`, the last ones in front of
  -- the restart array.
  pub record Ahead (last bytes : List ℕ) (it : Iter) : Type 0 where
    pub key_eq : it.key ≡ last
    pub offset_eq : next_entry_offset data_ restarts num_restarts it + length bytes ≡ restarts
    pub bytes_eq :
        take
          (restarts - next_entry_offset data_ restarts num_restarts it)
          (drop (next_entry_offset data_ restarts num_restarts it) data_)
        ≡ bytes

  -- What the pairs that a client reads with `Valid`, `key`, `value` and `Next` are.
  unfoldable pub pairs_from : ℕ → Iter → List Pair
  pairs_from zero it = []
  pairs_from (suc fuel) it =
      let rest = pairs_from fuel (next data_ restarts num_restarts it) in
      if valid data_ restarts num_restarts it then (it.key, it.value) ∷ rest else []

  -- The iterator at an entry.
  abbrev entry_iter : List ℕ → List ℕ → Entry → Iter → Iter
  entry_iter key value e it = record it {
    key = key;
    value_at = restarts - length e.rest + e.non_shared;
    value = value;
    restart_index =
        advance_restart data_ restarts num_restarts num_restarts it.current it.restart_index;
  }

  take_entry-Restores :
      (last key value rest : List ℕ) (e : Entry) (it : Iter)
      → it.key ≡ last
      → Restores last key value rest e
      → take_entry data_ restarts num_restarts (some e) it ≡ (true, entry_iter key value e it)
  unfolding take_entry
  take_entry-Restores last key value rest e it same good =
      let fits : ltb (length last) e.shared ≡ false =
        ge→ltb (length last) e.shared good.shared_le in
      simp (fits, same, good.key_eq, good.value_eq)

  -- What `ParseNextKey` finds at an entry.
  abbrev Parsed : List ℕ → List ℕ → List ℕ → Iter → Type 0
  Parsed key value rest it =
      (it' : Iter) × (parse_next_key data_ restarts num_restarts it ≡ (true, it'))
      × (it'.value ≡ value)
      × (valid data_ restarts num_restarts it' ≡ true)
      × Ahead key rest it'

  parse-Ahead :
      (small : restarts < 2 ^ 32) (last key value bytes rest : List ℕ) (e : Entry) (it : Iter)
      → Ahead last (bytes ++ rest) it
      → 0 < length bytes
      → decode_entry (bytes ++ rest) ≡ some e
      → length e.rest ≤ length (bytes ++ rest)
      → Restores last key value rest e
      → Parsed key value rest it
  unfolding parse_next_key next_entry_offset valid
  parse-Ahead small last key value bytes rest e it ahead some_bytes decoded shorter good =
      let p = next_entry_offset data_ restarts num_restarts it in
      let inside : p < restarts = omega (arith, ahead.offset_eq, length-append bytes rest) in
      let it1 = record it { current = p } in
      let value_length : length value ≡ e.value_length = omega (
        arith,
        ap length good.value_eq,
        length-take e.value_length (drop e.non_shared e.rest),
        length-drop e.non_shared e.rest,
        good.size_eq,
      ) in
      let offset : (restarts - length e.rest + e.non_shared + length value) % 2 ^ 32
          ≡ p + length bytes =
        omega (
          arith,
          ahead.offset_eq,
          length-append bytes rest,
          good.size_eq,
          value_length,
          shorter,
          small,
        ) in
      let left : take (restarts - (p + length bytes)) (drop (p + length bytes) data_) ≡ rest =
        ap (λ k. take k (drop (p + length bytes) data_)) {x = restarts - (p + length bytes)}
          {y = restarts - p - length bytes} (omega arith)
        ∙ ap (take (restarts - p - length bytes)) (drop-add p (length bytes) data_)
        ∙ sym (drop-take (length bytes) (restarts - p) (drop p data_))
        ∙ ap (drop (length bytes)) ahead.bytes_eq
        ∙ drop-length_append bytes rest in
      let more : leb restarts p ≡ false = ground (arith, inside) in
      (
        entry_iter key value e it1,
        simp (more, ahead.bytes_eq, decoded)
            (take_entry-Restores last key value rest e it1 ahead.key_eq good),
        refl,
        lt→ltb p restarts inside,
        record {
          key_eq = refl;
          offset_eq = omega (arith, offset, ahead.offset_eq, length-append bytes rest);
          bytes_eq = rw offset left;
        },
      )

  valid_pair :
      (fuel : ℕ) (it : Iter)
      → valid data_ restarts num_restarts it ≡ true
      → pairs_from (suc fuel) it
        ≡ (it.key, it.value) ∷ pairs_from fuel (next data_ restarts num_restarts it)
  unfolding pairs_from
  valid_pair fuel it h = rw h refl

  invalid_pair :
      (fuel : ℕ) (it : Iter)
      → valid data_ restarts num_restarts it ≡ false
      → pairs_from (suc fuel) it ≡ []
  unfolding pairs_from
  invalid_pair fuel it h = rw h refl

  ended :
      (it : Iter)
      → leb restarts (next_entry_offset data_ restarts num_restarts it) ≡ true
      → next data_ restarts num_restarts it
        ≡ record it { current = restarts; restart_index = num_restarts }
  unfolding parse_next_key
  ended it h = rw (next, h) refl

  read_pair :
      (fuel : ℕ) (it it' : Iter)
      → next data_ restarts num_restarts it ≡ it'
      → valid data_ restarts num_restarts it' ≡ true
      → pairs_from (suc fuel) (next data_ restarts num_restarts it)
        ≡ (it'.key, it'.value) ∷ pairs_from fuel (next data_ restarts num_restarts it')
  read_pair fuel it it' e h = ap (pairs_from (suc fuel)) e ∙ valid_pair fuel it' h

  no_more :
      (it : Iter)
      → restarts ≡ next_entry_offset data_ restarts num_restarts it
      → pairs_from 1 (next data_ restarts num_restarts it) ≡ []
  no_more it e =
      let over : leb restarts (next_entry_offset data_ restarts num_restarts it) ≡ true =
        ground (arith, e) in
      ap (pairs_from 1) (ended it over)
      ∙ invalid_pair 0 (record it { current = restarts; restart_index = num_restarts })
          (unfold valid in ge→ltb restarts restarts (omega arith))

  pub scan-Encoded :
      (small : restarts < 2 ^ 32) (last : List ℕ) (pairs : List Pair) (bytes : List ℕ) (it : Iter)
      → Encoded last pairs bytes
      → Ahead last bytes it
      → pairs_from (suc (length pairs)) (next data_ restarts num_restarts it) ≡ pairs
  scan-Encoded small _ _ _ it (done last) ahead = no_more it (omega (arith, ahead.offset_eq))
  scan-Encoded small _ _ _ it
        (entry last key value pairs bytes rest e some_bytes decoded shorter good more) ahead =
      let (it', parsed, value_eq, is_valid, ahead') =
        parse-Ahead small last key value bytes rest e it ahead some_bytes decoded shorter good in
      read_pair (suc (length pairs)) it it' (ap (λ (r : Bool × Iter). r.1) parsed) is_valid
      ∙ ap
          (λ k.
            (k, it'.value) ∷ pairs_from (suc (length pairs)) (next data_ restarts num_restarts it'))
          ahead'.key_eq
      ∙ ap (λ v. (key, v) ∷ pairs_from (suc (length pairs)) (next data_ restarts num_restarts it'))
          value_eq
      ∙ ap (λ l. (key, value) ∷ l) (scan-Encoded small key pairs rest it' more ahead')
