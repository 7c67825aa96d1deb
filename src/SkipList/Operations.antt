-- ===== src/SkipList/Operations.antt =====
-- The skip list as a sorted list of keys: what each operation does to it.
use Prim.Native.Nat.{Ordering}
use mathlib.Core.Option
use squirrel.Prelude.{ℕ, zero, suc, ◌-◌, ◌≤◌, ◌<◌, ◌≡◌, refl, arith, ap, sym, ◌∙◌, subst}
use squirrel.Prelude.{true, false, none, some, List, [], ◌∷◌, ◌++◌, length, length-append, All, map}
use squirrel.Slice.{is_lt}
use squirrel.SkipList.{SkipList, Ptr, Found, head, new_skip_list, next_of, key_of, height_of}
use squirrel.SkipList.{
  insert_after, insert, contains, is_equal_at, find_greater_or_equal, key_is_after_node,
}
use squirrel.SkipList.Iterator
use squirrel.SkipList.Chain.{Links, last_tall}
use squirrel.SkipList.Order.{
  IsOrder, Sorted, has_equal, insert_sorted, insert_sorted-Sorted, from_key, has_equal-tail,
  has_equal-before,
}
use squirrel.SkipList.State.{IsSkipList, insert_sorted-split, from_key-split}
use squirrel.SkipList.Search.{StopsBehind}
use squirrel.SkipList.Find.{
  search_from_head-stops, split_here, position, suffix-position, first_tall-position, All-positive,
}
use squirrel.SkipList.Distinct.{All-suffix}
use squirrel.SkipList.Splice.{Links-suffix}
use squirrel.SkipList.Invariant.{after-IsSkipList, after-keys}

-- `ks` are the keys of the list, in increasing order.
pub record Represents {K : Type 0} (compare : K → K → Ordering) (s : SkipList K) (ks : List K)
    : Type 0 where
  pub nodes : List ℕ
  pub valid : IsSkipList compare s nodes
  pub keys : map (key_of s) nodes ≡ ks

-- The keys that `Next` visits from a position on; there are no more than nodes.
unfoldable pub keys_from : {K : Type 0} → ℕ → SkipList K → Ptr → List K
keys_from zero s p = []
keys_from (suc n) s none = []
keys_from (suc n) s (some x) = key_of s x ∷ keys_from n s (Iterator.next s x)

module _ {K : Type 0} (compare : K → K → Ordering) where
  -- A new skip list holds no key.
  pub new_skip_list-Represents : (any_key : K) → Represents compare (new_skip_list any_key) []
  unfolding new_skip_list next_of height_of
  new_skip_list-Represents any_key = record {
    nodes = [];
    valid = record {
      links = (λ i lt. ground arith, tt);
      distinct = (tt, tt);
      allocated = (omega arith, tt);
      heights = tt;
      head_height = refl;
      some_level = omega arith;
      few_levels = omega arith;
      counted = refl;
      sorted = tt;
    };
    keys = refl;
  }

  keys_from-position :
      (s : SkipList K) (ys : List ℕ) (n : ℕ)
      → Links (next_of s) (height_of s) ys
      → All (λ y. 0 < height_of s y) ys
      → length ys ≤ n
      → keys_from n s (position ys) ≡ map (key_of s) ys
  unfolding keys_from Iterator.next
  keys_from-position s [] zero l h le = refl
  keys_from-position s [] (suc n) l h le = refl
  keys_from-position s (y ∷ ys) zero l h le = absurd (omega arith)
  keys_from-position s (y ∷ ys) (suc n) l h le =
      let e = l.0 0 h.0 ∙ first_tall-position (height_of s) ys h.1 in
      rw e (ap (λ t. key_of s y ∷ t) (keys_from-position s ys n l.1 h.1 (omega arith)))

  keys_from-suffix :
      (s : SkipList K) (xs : List ℕ)
      → IsSkipList compare s xs
      → (pre post : List ℕ) → xs ≡ pre ++ post
      → keys_from s.count s (position post) ≡ map (key_of s) post
  keys_from-suffix s xs valid pre post e =
      let links = subst (λ l. Links (next_of s) (height_of s) (head ∷ l)) e valid.links in
      let high =
        subst (All (λ y. 0 < height_of s y)) e
          (All-positive (height_of s) s.max_height xs valid.heights) in
      keys_from-position s post s.count
        (Links-suffix (next_of s) (height_of s) (head ∷ pre) post links)
        (All-suffix (λ y. 0 < height_of s y) pre post high)
        (omega (arith, valid.counted, ap length e, length-append pre post))

  module _ (laws : IsOrder compare) (k : K) (s : SkipList K) where
    -- The search for a key ends at the first node that is not smaller.
    find_greater_or_equal-stops :
        (xs : List ℕ) (valid : IsSkipList compare s xs)
        → let t = split_here compare s xs valid laws k in
          (f : Found) × (find_greater_or_equal compare k s ≡ some f)
          × StopsBehind s
              (key_is_after_node compare s k)
              t.post
              head
              (s.max_height - 1)
              (λ i. head)
              t.pre
              f
    unfolding find_greater_or_equal key_is_after_node
    find_greater_or_equal-stops xs valid =
        let t = split_here compare s xs valid laws k in
        search_from_head-stops compare s xs valid (key_is_after_node compare s k) refl
          (record { pre = t.pre; post = t.post; whole = t.whole; go = t.go; stay = t.stay })

    is_equal_at-split :
        (pre post : List ℕ)
        → All (λ y. is_lt (compare (key_of s y) k) ≡ true) pre
        → All (λ y. is_lt (compare (key_of s y) k) ≡ false) post
        → Sorted compare (map (key_of s) (pre ++ post))
        → is_equal_at compare s k (position post)
          ≡ has_equal compare k (map (key_of s) (pre ++ post))
    unfolding is_equal_at
    is_equal_at-split [] [] go stay sorted = unfold has_equal in refl
    is_equal_at-split [] (x ∷ post) go stay sorted =
        let tail =
          has_equal-tail compare laws k (key_of s x) (map (key_of s) post) stay.0 sorted.0 in
        unfold has_equal in rw tail (ground arith)
    is_equal_at-split (x ∷ pre) post go stay sorted =
        rw (has_equal-before compare laws k (key_of s x) (map (key_of s) (pre ++ post)) go.0)
          (is_equal_at-split pre post go.1 stay sorted.1)

    -- Into a list that holds the sorted keys `ks`, none of which compares equal to `k`, `Insert`
    -- returns, and puts `k` at its place: the levels are again linked in order.
    pub insert-Represents :
        (ks : List K)
        → Represents compare s ks
        → has_equal compare k ks ≡ false
        → (s' : SkipList K) × (insert compare k s ≡ some s')
          × Represents compare s' (insert_sorted compare k ks)
    unfolding insert
    insert-Represents ks r new =
        let t = split_here compare s r.nodes r.valid laws k in
        let (f, run, at) = find_greater_or_equal-stops r.nodes r.valid in
        let valid : IsSkipList compare s (t.pre ++ t.post) =
          subst (IsSkipList compare s) t.whole r.valid in
        let in_place : (j : ℕ)
            → j < s.max_height
            → f.prev j ≡ last_tall (height_of s) j head t.pre =
          λ j lt. at.prev_low j (omega arith) in
        let keys =
          after-keys compare s k t.pre t.post valid f.prev in_place
          ∙ (sym (insert_sorted-split compare laws (key_of s) k t.pre t.post t.go t.stay)
              ∙ ap (insert_sorted compare k) (ap (map (key_of s)) (sym t.whole) ∙ r.keys)) in
        (
          insert_after k f.prev s,
          ap (Option.map (λ (g : Found). insert_after k g.prev s)) run,
          record {
            nodes = t.pre ++ (s.count ∷ t.post);
            valid = after-IsSkipList compare s k t.pre t.post valid f.prev in_place (
                subst (Sorted compare) (sym keys) (
                  insert_sorted-Sorted compare laws k ks new
                    (subst (Sorted compare) r.keys r.valid.sorted)));
            keys = keys;
          },
        )

    -- `Contains` returns, and finds exactly the keys that compare equal to one in the list.
    pub contains-has_equal :
        (ks : List K)
        → Represents compare s ks
        → contains compare k s ≡ some (has_equal compare k ks)
    unfolding contains is_equal_at has_equal
    contains-has_equal ks r =
        let t = split_here compare s r.nodes r.valid laws k in
        let (f, run, at) = find_greater_or_equal-stops r.nodes r.valid in
        let sorted : Sorted compare (map (key_of s) (t.pre ++ t.post)) =
          subst (λ l. Sorted compare (map (key_of s) l)) t.whole r.valid.sorted in
        rw (run, at.next, suffix-position compare s r.nodes r.valid t.pre t.post t.whole)
          (ap some (
            is_equal_at-split t.pre t.post t.go t.stay sorted
            ∙ ap (has_equal compare k) (ap (map (key_of s)) (sym t.whole) ∙ r.keys)))

    -- `Seek` returns, and from where it stands `Next` visits the keys that are not smaller than `k`,
    -- in order.
    pub seek-from_key :
        (ks : List K)
        → Represents compare s ks
        → (p : Ptr) × (Iterator.seek compare k s ≡ some p)
          × (keys_from s.count s p ≡ from_key compare k ks)
    unfolding Iterator.seek
    seek-from_key ks r =
        let t = split_here compare s r.nodes r.valid laws k in
        let (f, run, at) = find_greater_or_equal-stops r.nodes r.valid in
        let stop = at.next ∙ suffix-position compare s r.nodes r.valid t.pre t.post t.whole in
        (
          f.next,
          ap (Option.map (λ (g : Found). g.next)) run,
          rw stop (
              keys_from-suffix s r.nodes r.valid t.pre t.post t.whole
              ∙ (sym (from_key-split compare laws (key_of s) k t.pre t.post t.go t.stay)
                  ∙ ap (from_key compare k) (ap (map (key_of s)) (sym t.whole) ∙ r.keys))),
        )
