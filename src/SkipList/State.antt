-- ===== src/SkipList/State.antt =====
-- The invariant of the skip list, and the split of its nodes at a key.
use Prim.Native.Nat.{Ordering}
use squirrel.Prelude.{ℕ, suc, ◌≤◌, ◌<◌, ◌≡◌, refl, inl, inr, ap, Bool-cases}
use squirrel.Prelude.{Bool, true, false, none, some, List, [], ◌∷◌, ◌++◌, ltb, length, All, map}
use squirrel.Slice.{is_lt}
use squirrel.SkipList.{SkipList, Ptr, head, max_levels, next_of, key_of, height_of}
use squirrel.SkipList.Chain.{first_tall, Links, Distinct}
use squirrel.SkipList.Order.{IsOrder, Sorted, Sorted-tail, insert_sorted, from_key}

-- `xs` are the nodes behind the head in the order of level 0. Level `i` links the nodes that are
-- higher than `i`, all nodes are allocated and at most `max_height` high, and the keys increase.
pub record IsSkipList {K : Type 0} (compare : K → K → Ordering) (s : SkipList K) (xs : List ℕ)
    : Type 0 where
  pub links : Links (next_of s) (height_of s) (head ∷ xs)
  pub distinct : Distinct (head ∷ xs)
  pub allocated : All (λ x. x < s.count) (head ∷ xs)
  pub heights : All (λ x. (0 < height_of s x) × (height_of s x ≤ s.max_height)) xs
  pub head_height : height_of s head ≡ max_levels
  pub some_level : 0 < s.max_height
  pub few_levels : s.max_height ≤ max_levels
  pub counted : s.count ≡ suc (length xs)
  pub sorted : Sorted compare (map (key_of s) xs)

-- The nodes at which a search goes on, and those at which it does not.
pub record Split (goes : Ptr → Bool) (xs : List ℕ) : Type 0 where
  pub pre : List ℕ
  pub post : List ℕ
  pub whole : xs ≡ pre ++ post
  pub go : All (λ y. goes (some y) ≡ true) pre
  pub stay : All (λ y. goes (some y) ≡ false) post

pub first_tall-stay :
    (goes : Ptr → Bool) (height : ℕ → ℕ) (j : ℕ) (post : List ℕ)
    → goes none ≡ false
    → All (λ y. goes (some y) ≡ false) post
    → goes (first_tall height j post) ≡ false
first_tall-stay goes height j [] h a = h
first_tall-stay goes height j (y ∷ ys) h (g, a) = elim (Bool-cases (ltb j (height y))) [
  | inl e ↦ rw e g
  | inr e ↦ rw e (first_tall-stay goes height j ys h a)
]

module _ {K : Type 0} (compare : K → K → Ordering) (laws : IsOrder compare) (key : ℕ → K)
    (k : K) where
  abbrev pub before : Ptr → Bool
  before none = false
  before (some x) = is_lt (compare (key x) k)

  stay-nodes :
      (xs : List ℕ)
      → All (λ i. is_lt (compare i k) ≡ false) (map key xs)
      → All (λ y. before (some y) ≡ false) xs
  stay-nodes [] a = tt
  stay-nodes (x ∷ xs) (h, a) = (h, stay-nodes xs a)

  pub split_at : (xs : List ℕ) → Sorted compare (map key xs) → Split before xs
  split_at [] s = record { pre = []; post = []; whole = refl; go = tt; stay = tt }
  split_at (x ∷ xs) (a, s) = elim (Bool-cases (is_lt (compare (key x) k))) [
    | inl e ↦
        let t : Split before xs = split_at xs s in
        record {
          pre = x ∷ t.pre;
          post = t.post;
          whole = ap (λ l. x ∷ l) t.whole;
          go = (e, t.go);
          stay = t.stay;
        }
    | inr e ↦ record {
      pre = [];
      post = x ∷ xs;
      whole = refl;
      go = tt;
      stay = (e, stay-nodes xs (Sorted-tail compare laws k (key x) (map key xs) e a));
    }
  ]

  pub insert_sorted-split :
      (pre post : List ℕ)
      → All (λ y. before (some y) ≡ true) pre
      → All (λ y. before (some y) ≡ false) post
      → insert_sorted compare k (map key (pre ++ post)) ≡ map key pre ++ (k ∷ map key post)
  unfolding insert_sorted
  insert_sorted-split [] [] g h = refl
  insert_sorted-split [] (x ∷ post) g h = rw h.0 refl
  insert_sorted-split (x ∷ pre) post g h =
      rw g.0 (ap (λ l. key x ∷ l) (insert_sorted-split pre post g.1 h))

  pub from_key-split :
      (pre post : List ℕ)
      → All (λ y. before (some y) ≡ true) pre
      → All (λ y. before (some y) ≡ false) post
      → from_key compare k (map key (pre ++ post)) ≡ map key post
  unfolding from_key
  from_key-split [] [] g h = refl
  from_key-split [] (x ∷ post) g h = rw h.0 refl
  from_key-split (x ∷ pre) post g h = rw g.0 (from_key-split pre post g.1 h)
