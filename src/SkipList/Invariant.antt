-- ===== src/SkipList/Invariant.antt =====
-- `Insert` keeps the invariant of the skip list.
use Prim.Native.Nat.{Ordering}
use mathlib.Core.List.{map-append}
use squirrel.Prelude.{ℕ, ◌≤◌, ◌<◌, ◌≡◌, ◌≢◌, refl, arith, ap, sym, ◌∙◌}
use squirrel.Prelude.{
  ◌&&◌, some, List, [], ◌∷◌, ◌++◌, ltb, ◌==◌, if◌then◌else◌, length-append, All, All-append, map,
}
use squirrel.SkipList.{SkipList, head, next_of, key_of, height_of, fill_prev}
use squirrel.SkipList.{insert_after}
use squirrel.SkipList.Chain.{first_tall, last_tall, Links}
use squirrel.SkipList.Distinct.{
  All-prefix, All-suffix, All-weaken, All-zip, Distinct-prefix, Distinct-apart, Distinct-insert,
}
use squirrel.SkipList.Splice.{
  All-last_tall, last_tall-tall, last_tall-above, next-last_tall, Links-behind, splice,
  Links-suffix, first_tall-agree,
}
use squirrel.SkipList.Insert.{
  new_height, filled, random_height_bounds, height_of-insert_after, key_of-insert_after,
}
use squirrel.SkipList.Insert.{count-insert_after, old_next-insert_after, new_next-insert_after}
use squirrel.SkipList.Order.{Sorted}
use squirrel.SkipList.State.{IsSkipList}

module _ {K : Type 0} (compare : K → K → Ordering) (s : SkipList K) (k : K) (pre post : List ℕ)
    (valid : IsSkipList compare s (pre ++ post)) (prev : ℕ → ℕ)
    (at : (j : ℕ) → j < s.max_height → prev j ≡ last_tall (height_of s) j head pre) where
  old_nodes : All (λ y. y < s.count) (head ∷ (pre ++ post))
  old_nodes = valid.allocated

  pre-old : All (λ y. y ≢ s.count) (head ∷ pre)
  pre-old =
      All-weaken (λ y. y < s.count) (head ∷ pre) (λ y h. omega arith)
        (All-prefix (λ y. y < s.count) (head ∷ pre) post valid.allocated)

  post-old : All (λ y. y ≢ s.count) post
  post-old =
      All-weaken (λ y. y < s.count) post (λ y h. omega arith)
        (All-suffix (λ y. y < s.count) (head ∷ pre) post valid.allocated)

  filled-last_tall :
      (j : ℕ) → j < new_height s k prev → filled s k prev j ≡ last_tall (height_of s) j head pre
  unfolding fill_prev
  filled-last_tall j lt = ground (
    arith,
    at j,
    λ (le : s.max_height ≤ j). last_tall-above (height_of s) j head pre (
        All-weaken (λ x. (0 < height_of s x) × (height_of s x ≤ s.max_height)) pre
          (λ y h. omega arith)
          (All-prefix (λ x. (0 < height_of s x) × (height_of s x ≤ s.max_height)) pre post
            valid.heights)),
  )

  filled_in_place :
      (j : ℕ)
      → j < new_height s k prev
      → (s.count ≢ filled s k prev j) × (j < height_of s (filled s k prev j))
  filled_in_place j lt = rw (filled-last_tall j lt) (
    (λ e. All-last_tall (λ y. y ≢ s.count) (height_of s) j head pre pre-old.0 pre-old.1 (sym e)),
    last_tall-tall (height_of s) j head pre
        (omega (arith, valid.head_height, random_height_bounds s.rnd)),
  )

  abbrev after : SkipList K
  after = insert_after k prev s

  post-apart : All (λ y. (j : ℕ) → j < new_height s k prev → y ≢ filled s k prev j) post
  post-apart =
      All-weaken (λ y. All (λ w. y ≢ w) (head ∷ pre)) post
        (λ y a j lt.
          rw (filled-last_tall j lt) (All-last_tall (λ w. y ≢ w) (height_of s) j head pre a.0 a.1))
        (Distinct-apart (head ∷ pre) post valid.distinct)

  ys : List ℕ
  ys = pre ++ (s.count ∷ post)

  old_height : (y : ℕ) → y ≢ s.count → height_of after y ≡ height_of s y
  old_height y ne = ground (arith, height_of-insert_after s k prev y)

  new_height_of : height_of after s.count ≡ new_height s k prev
  new_height_of = ground (arith, height_of-insert_after s k prev s.count)

  old_next :
      (y j : ℕ)
      → y ≢ s.count
      → next_of after y j ≡ (
          if ltb j (new_height s k prev) && (y == filled s k prev j)
          then some s.count
          else next_of s y j)
  old_next y j ne = old_next-insert_after s k prev filled_in_place y j ne

  post-Links : Links (next_of after) (height_of after) post
  post-Links =
      Links-behind (next_of s) (next_of after) (height_of s) (height_of after) (filled s k prev)
        s.count (new_height s k prev) old_height new_height_of old_next post post-old post-apart
        (Links-suffix (next_of s) (height_of s) (head ∷ pre) post valid.links)

  first_tall-after : (i : ℕ) → first_tall (height_of after) i post ≡ first_tall (height_of s) i post
  first_tall-after i =
      first_tall-agree (next_of s) (next_of after) (height_of s) (height_of after) (filled s k prev)
        s.count (new_height s k prev) old_height new_height_of old_next i post post-old

  new_linked :
      (i : ℕ)
      → i < height_of after s.count
      → next_of after s.count i ≡ first_tall (height_of after) i post
  new_linked i lt =
      let below : i < new_height s k prev = omega (arith, new_height_of) in
      let on_head : i < height_of s head =
        omega (arith, valid.head_height, random_height_bounds s.rnd) in
      new_next-insert_after s k prev filled_in_place i below
      ∙ (ap (λ w. next_of s w i) (filled-last_tall i below)
          ∙ (next-last_tall (height_of s) i (next_of s) head pre post (valid.links.0 i on_head)
                valid.links.1
              ∙ sym (first_tall-after i)))

  after-Links : Links (next_of after) (height_of after) (head ∷ (pre ++ (s.count ∷ post)))
  after-Links =
      splice (next_of s) (next_of after) (height_of s) (height_of after) (filled s k prev) s.count
        (new_height s k prev) old_height new_height_of old_next (λ i. head) (head ∷ pre) post
        (λ i lt.
          filled-last_tall i lt ∙ ground (arith, valid.head_height, random_height_bounds s.rnd))
        pre-old post-old (Distinct-prefix (head ∷ pre) post valid.distinct) valid.links
        (new_linked, post-Links)

  heights-of :
      (xs : List ℕ)
      → All (λ y. y ≢ s.count) xs
      → All (λ x. (0 < height_of s x) × (height_of s x ≤ s.max_height)) xs
      → All (λ x. (0 < height_of after x) × (height_of after x ≤ after.max_height)) xs
  heights-of xs a h =
      All-weaken (λ x. (x ≢ s.count) × ((0 < height_of s x) × (height_of s x ≤ s.max_height))) xs
        (λ x g. ground (arith, old_height x g.0, (count-insert_after s k prev).1))
        (All-zip (λ y. y ≢ s.count) (λ x. (0 < height_of s x) × (height_of s x ≤ s.max_height)) xs a
          h)

  abbrev IsHigh : ℕ → Type 0
  IsHigh x = (0 < height_of s x) × (height_of s x ≤ s.max_height)

  after-heights :
      All
        (λ x. (0 < height_of after x) × (height_of after x ≤ after.max_height))
        (pre ++ (s.count ∷ post))
  after-heights =
      All-append (λ x. (0 < height_of after x) × (height_of after x ≤ after.max_height)) pre
        (s.count ∷ post) (heights-of pre pre-old.1 (All-prefix IsHigh pre post valid.heights))
        (
          ground
              (arith, new_height_of, random_height_bounds s.rnd, (count-insert_after s k prev).1),
          heights-of post post-old (All-suffix IsHigh pre post valid.heights),
        )

  keys-of : (xs : List ℕ) → All (λ y. y ≢ s.count) xs → map (key_of after) xs ≡ map (key_of s) xs
  keys-of [] a = refl
  keys-of (x ∷ xs) a =
      let same : key_of after x ≡ key_of s x =
        ground (arith, a.0, key_of-insert_after s k prev x) in
      rw same (ap (λ l. key_of s x ∷ l) (keys-of xs a.1))

  pub after-keys :
      map (key_of after) (pre ++ (s.count ∷ post)) ≡ map (key_of s) pre ++ (k ∷ map (key_of s) post)
  after-keys =
      let new : key_of after s.count ≡ k = ground (arith, key_of-insert_after s k prev s.count) in
      map-append (key_of after) pre (s.count ∷ post)
      ∙ rw (keys-of pre pre-old.1, keys-of post post-old, new) refl

  pub after-IsSkipList :
      Sorted compare (map (key_of after) (pre ++ (s.count ∷ post)))
      → IsSkipList compare after (pre ++ (s.count ∷ post))
  after-IsSkipList sorted =
      let counts = count-insert_after s k prev in
      let old : All (λ y. y < after.count) (head ∷ (pre ++ post)) =
        All-weaken (λ y. y < s.count) (head ∷ (pre ++ post)) (λ y h. omega (arith, counts.0))
          valid.allocated in
      record {
        links = after-Links;
        distinct = Distinct-insert s.count (head ∷ pre) post valid.distinct pre-old post-old;
        allocated = (
          old.0,
          All-append (λ y. y < after.count) pre (s.count ∷ post)
              (All-prefix (λ y. y < after.count) pre post old.1)
              (omega (arith, counts.0), All-suffix (λ y. y < after.count) pre post old.1),
        );
        heights = after-heights;
        head_height = old_height head pre-old.0 ∙ valid.head_height;
        some_level = ground (arith, counts.1, valid.some_level);
        few_levels = ground (arith, counts.1, valid.few_levels, random_height_bounds s.rnd);
        counted = omega (
          arith,
          counts.0,
          valid.counted,
          length-append pre post,
          length-append pre (s.count ∷ post),
        );
        sorted = sorted;
      }
