-- ===== src/SkipList/Order.antt =====
-- The order that the skip list asks of its comparator, and sorted lists of keys.
use Prim.Native.Nat.{Ordering}
use squirrel.Prelude.{◌≡◌, ◌≢◌, refl, inl, inr, arith, Bool-cases}
use squirrel.Prelude.{Bool, true, false, ◌||◌, List, [], ◌∷◌, if◌then◌else◌, All}
use squirrel.Slice.{is_lt, is_eq}

pub record IsOrder {K : Type 0} (compare : K → K → Ordering) : Type 0 where
  pub lt_flip : (a b : K) → compare a b ≡ Ordering.lt → compare b a ≡ Ordering.gt
  pub gt_flip : (a b : K) → compare a b ≡ Ordering.gt → compare b a ≡ Ordering.lt
  pub le_trans :
      (a b c : K)
      → compare a b ≢ Ordering.gt
      → compare b c ≢ Ordering.gt
      → compare a c ≢ Ordering.gt

module _ {K : Type 0} (compare : K → K → Ordering) where
  abbrev pub Sorted : List K → Type 0
  Sorted [] = Unit {0}
  Sorted (k ∷ ks) = All (λ j. compare k j ≡ Ordering.lt) ks × Sorted ks

  -- What `Insert` does to the keys, and what `Contains` asks of them.
  unfoldable pub insert_sorted : K → List K → List K
  insert_sorted k [] = k ∷ []
  insert_sorted k (j ∷ ks) =
      let rest = insert_sorted k ks in if is_lt (compare j k) then j ∷ rest else k ∷ (j ∷ ks)

  unfoldable pub has_equal : K → List K → Bool
  has_equal k [] = false
  has_equal k (j ∷ ks) = is_eq (compare k j) || has_equal k ks

  -- The keys from the first one on that is not smaller than `k`.
  unfoldable pub from_key : K → List K → List K
  from_key k [] = []
  from_key k (j ∷ ks) = let rest = from_key k ks in if is_lt (compare j k) then rest else j ∷ ks

  module _ (laws : IsOrder compare) where
    pub lt_of_lt_le :
        (a b c : K)
        → compare a b ≡ Ordering.lt
        → compare b c ≢ Ordering.gt
        → compare a c ≡ Ordering.lt
    lt_of_lt_le a b c h g = ground (
      arith,
      laws.le_trans a b c,
      laws.le_trans b c a,
      laws.lt_flip a b,
      laws.gt_flip a c,
      laws.gt_flip c a,
    )

    -- Behind a key that is not smaller than `k` all keys are larger than `k`.
    pub Sorted-tail :
        (k j : K) (ks : List K)
        → is_lt (compare j k) ≡ false
        → All (λ i. compare j i ≡ Ordering.lt) ks
        → All (λ i. is_lt (compare i k) ≡ false) ks
    Sorted-tail k j [] h a = tt
    Sorted-tail k j (i ∷ ks) h (lt, a) = (
      ground (
        arith,
        laws.lt_flip i k,
        laws.gt_flip j k,
        laws.lt_flip j i,
        laws.le_trans k j i,
        laws.le_trans i k j,
        laws.gt_flip k j,
        laws.lt_flip k j,
        laws.gt_flip k i,
      ),
      Sorted-tail k j ks h a,
    )

    All-insert_sorted :
        (P : K → Type 0) (k : K) (ks : List K) → P k → All P ks → All P (insert_sorted k ks)
    unfolding insert_sorted
    All-insert_sorted P k [] h a = (h, tt)
    All-insert_sorted P k (j ∷ ks) h (g, a) = elim (Bool-cases (is_lt (compare j k))) [
      | inl e ↦ rw e (g, All-insert_sorted P k ks h a)
      | inr e ↦ rw e (h, (g, a))
    ]

    All-lt :
        (k j : K) (ks : List K)
        → compare k j ≡ Ordering.lt
        → All (λ i. compare j i ≡ Ordering.lt) ks
        → All (λ i. compare k i ≡ Ordering.lt) ks
    All-lt k j [] h a = tt
    All-lt k j (i ∷ ks) h (g, a) = (lt_of_lt_le k j i h (λ e. cc), All-lt k j ks h a)

    pub insert_sorted-Sorted :
        (k : K) (ks : List K) → has_equal k ks ≡ false → Sorted ks → Sorted (insert_sorted k ks)
    unfolding insert_sorted has_equal
    insert_sorted-Sorted k [] new s = (tt, tt)
    insert_sorted-Sorted k (j ∷ ks) new (a, s) = elim (Bool-cases (is_lt (compare j k))) [
      | inl e ↦ rw e (
        All-insert_sorted (λ i. compare j i ≡ Ordering.lt) k ks (ground arith) a,
        insert_sorted-Sorted k ks (ground arith) s,
      )
      | inr e ↦
          let less : compare k j ≡ Ordering.lt =
            ground (arith, laws.gt_flip j k, laws.lt_flip k j, laws.gt_flip k j) in
          rw e ((less, All-lt k j ks less a), (a, s))
    ]

    -- Behind a key that is not smaller than `k` there is none that compares equal.
    pub has_equal-tail :
        (k j : K) (ks : List K)
        → is_lt (compare j k) ≡ false
        → All (λ i. compare j i ≡ Ordering.lt) ks
        → has_equal k ks ≡ false
    unfolding has_equal
    has_equal-tail k j [] h a = refl
    has_equal-tail k j (i ∷ ks) h (lt, a) = ground (
      arith,
      has_equal-tail k j ks h a,
      laws.gt_flip j k,
      laws.lt_flip j i,
      laws.gt_flip k j,
      laws.lt_flip k j,
      laws.le_trans i k j,
      laws.gt_flip i k,
      laws.lt_flip i k,
    )

    pub has_equal-before :
        (k j : K) (ks : List K) → is_lt (compare j k) ≡ true → has_equal k (j ∷ ks) ≡ has_equal k ks
    unfolding has_equal
    has_equal-before k j ks h = ground (arith, laws.lt_flip j k)
