-- ===== src/DbFormat/Separators.antt =====
-- Separators and successors of internal keys.
use Prim.Native.Nat.{Ordering}
use squirrel.Prelude.{ℕ, ◌≡◌, ◌≢◌, arith}
use squirrel.Prelude.{◌⊎◌, List, inl, inr}
use squirrel.Comparator.{Comparator, IsComparator}
use squirrel.DbFormat.{extract_user_key, shortened, pack_sequence_and_type, internal_compare}
use squirrel.DbFormat.{internal_shortest_separator, internal_short_successor}
use squirrel.DbFormat.{max_sequence_number, value_type_for_seek}
use squirrel.DbFormat.Packing.{
  put_fixed64-with_trailer, extract_user_key-with_trailer, with_trailer,
}

abbrev earliest : ℕ
earliest = pack_sequence_and_type max_sequence_number value_type_for_seek

module _ (user : Comparator) where
  internal_compare_self :
      (a : List ℕ)
      → user.compare (extract_user_key a) (extract_user_key a) ≡ Ordering.eq
      → internal_compare user a a ≢ Ordering.gt
  unfolding internal_compare
  internal_compare_self a h = ground arith

  -- `shortened` is the key, or a key with the user key `tmp`, which is larger than the key.
  shortened_cases :
      (key tmp : List ℕ)
      → (shortened user key (extract_user_key key) tmp ≡ key)
        ⊎ (shortened user key (extract_user_key key) tmp ≡ with_trailer tmp earliest)
          × (user.compare (extract_user_key key) tmp ≡ Ordering.lt)
  unfolding shortened
  shortened_cases key tmp = ground (arith, put_fixed64-with_trailer tmp earliest)

  internal_compare_lt_left :
      (a b : List ℕ)
      → user.compare (extract_user_key a) (extract_user_key b) ≡ Ordering.lt
      → internal_compare user a b ≡ Ordering.lt
  unfolding internal_compare
  internal_compare_lt_left a b h = ground arith

module _ (user : Comparator) (laws : IsComparator user) where
  user_refl : (a : List ℕ) → user.compare a a ≡ Ordering.eq
  user_refl a = ground (arith, laws.compare_flip a a, laws.compare_flip' a a)

  -- Over a user comparator that meets its interface, and where the user key of `start` is smaller
  -- than that of `limit`, the separator that goes into an index block lies in
  -- [start, limit) by the order of internal keys.
  pub internal_shortest_separator_bounds :
      (start limit : List ℕ)
      → user.compare (extract_user_key start) (extract_user_key limit) ≡ Ordering.lt
      → (internal_compare user start (internal_shortest_separator user start limit) ≢ Ordering.gt)
        × (internal_compare user (internal_shortest_separator user start limit) limit ≡ Ordering.lt)
  unfolding internal_shortest_separator
  internal_shortest_separator_bounds start limit h =
      let s = extract_user_key start in
      let l = extract_user_key limit in
      let tmp = user.find_shortest_separator s l in
      elim (shortened_cases user start tmp) [
        | inl same ↦ rw same (
          internal_compare_self user start (user_refl s),
          internal_compare_lt_left user start limit h,
        )
        | inr (new, larger) ↦ rw new (
          (λ e. cc (
              internal_compare_lt_left user start (with_trailer tmp earliest)
                (rw extract_user_key-with_trailer larger))),
          internal_compare_lt_left user (with_trailer tmp earliest) limit
              (rw extract_user_key-with_trailer (laws.separator_lt s l h)),
        )
      ]

  -- Over a user comparator that meets its interface, the successor of the last key of a table is not
  -- smaller than that key.
  pub internal_short_successor_ge :
      (key : List ℕ) → internal_compare user key (internal_short_successor user key) ≢ Ordering.gt
  unfolding internal_short_successor
  internal_short_successor_ge key =
      let u = extract_user_key key in
      let tmp = user.find_short_successor u in
      elim (shortened_cases user key tmp) [
        | inl same ↦ rw same (internal_compare_self user key (user_refl u))
        | inr (new, larger) ↦ rw new (λ e. cc (
            internal_compare_lt_left user key (with_trailer tmp earliest)
              (rw extract_user_key-with_trailer larger)))
      ]
