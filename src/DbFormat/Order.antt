-- ===== src/DbFormat/Order.antt =====
-- The order of internal keys: by user key, then the newest first.
use Prim.Native.Nat.{compare, Ordering}
use squirrel.Prelude.{ℕ, ◌≡◌, ◌≢◌, arith}
use squirrel.Prelude.{List, []}
use squirrel.Slice.Order.{flip}
use squirrel.Comparator.{Comparator, IsComparator}
use squirrel.DbFormat.{ParsedInternalKey, append_internal_key, extract_user_key}
use squirrel.DbFormat.{pack_sequence_and_type, internal_compare}
use squirrel.DbFormat.Packing.{IsPacked, pack_sum, append_internal_key-with_trailer}
use squirrel.DbFormat.Packing.{extract_user_key-with_trailer, trailer-with_trailer}

-- The specification: the user's order, and on equal user keys the larger number, then the larger
-- type, comes first.
abbrev pub newest_first : Ordering → Ordering → Ordering → Ordering
newest_first Ordering.lt seqs types = Ordering.lt
newest_first Ordering.gt seqs types = Ordering.gt
newest_first Ordering.eq Ordering.lt types = Ordering.gt
newest_first Ordering.eq Ordering.gt types = Ordering.lt
newest_first Ordering.eq Ordering.eq types = flip types

module _ (user : Comparator) where
  -- Two encoded keys compare by increasing user key, then by decreasing sequence number, then by
  -- decreasing type, for numbers and types that the asserts allow.
  pub internal_compare-append_internal_key :
      (a b : ParsedInternalKey)
      → IsPacked a.sequence a.value_type
      → IsPacked b.sequence b.value_type
      → internal_compare user (append_internal_key [] a) (append_internal_key [] b)
        ≡ newest_first
            (user.compare a.user_key b.user_key)
            (compare a.sequence b.sequence)
            (compare a.value_type b.value_type)
  internal_compare-append_internal_key a b ha hb =
      let sa = pack_sum a.sequence a.value_type ha in
      let sb = pack_sum b.sequence b.value_type hb in
      let va = pack_sequence_and_type a.sequence a.value_type in
      let vb = pack_sequence_and_type b.sequence b.value_type in
      rw (append_internal_key-with_trailer a, append_internal_key-with_trailer b)
        (unfold internal_compare in
          rw
            (
              extract_user_key-with_trailer a.user_key va,
              extract_user_key-with_trailer b.user_key vb,
              trailer-with_trailer a.user_key va (omega arith),
              trailer-with_trailer b.user_key vb (omega arith),
              sa,
              sb,
            )
            (ground arith))

module _ (user : Comparator) (laws : IsComparator user) where
  internal_compare_lt :
      (a b : List ℕ)
      → internal_compare user a b ≡ Ordering.lt
      → internal_compare user b a ≡ Ordering.gt
  unfolding internal_compare
  internal_compare_lt a b h = ground (
    arith,
    laws.compare_flip (extract_user_key a) (extract_user_key b),
    laws.compare_flip' (extract_user_key b) (extract_user_key a),
    laws.compare_flip (extract_user_key b) (extract_user_key a),
  )

  internal_compare_gt :
      (a b : List ℕ)
      → internal_compare user a b ≡ Ordering.gt
      → internal_compare user b a ≡ Ordering.lt
  unfolding internal_compare
  internal_compare_gt a b h = ground (
    arith,
    laws.compare_flip' (extract_user_key a) (extract_user_key b),
    laws.compare_flip (extract_user_key b) (extract_user_key a),
    laws.compare_flip' (extract_user_key b) (extract_user_key a),
  )

  -- Over a user comparator that meets its interface, two internal keys compare in opposite ways
  -- when they are swapped.
  pub internal_compare-flip :
      (a b : List ℕ) → internal_compare user b a ≡ flip (internal_compare user a b)
  internal_compare-flip a b = ground (
    arith,
    internal_compare_lt a b,
    internal_compare_gt a b,
    internal_compare_lt b a,
    internal_compare_gt b a,
  )

  pub internal_le_trans :
      (a b c : List ℕ)
      → internal_compare user a b ≢ Ordering.gt
      → internal_compare user b c ≢ Ordering.gt
      → internal_compare user a c ≢ Ordering.gt
  unfolding internal_compare
  internal_le_trans a b c h g =
      let x = extract_user_key a in
      let y = extract_user_key b in
      let z = extract_user_key c in
      ground (
        arith,
        laws.le_trans x y z,
        laws.le_trans y z x,
        laws.le_trans z x y,
        laws.compare_flip x y,
        laws.compare_flip' y x,
        laws.compare_flip y z,
        laws.compare_flip' z y,
        laws.compare_flip z x,
        laws.compare_flip x z,
        laws.compare_flip' x z,
        laws.compare_flip' z x,
        laws.compare_flip' y z,
        laws.compare_flip' x y,
        laws.compare_flip y x,
        laws.compare_flip z y,
      )
