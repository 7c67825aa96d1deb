-- ===== src/SkipList/Memory.antt =====
-- What the writes of `Insert` leave in the nodes.
use squirrel.Prelude.{ℕ, zero, suc, ◌+◌, ◌≤◌, ◌<◌, ◌≡◌, ◌≢◌, refl, arith, ap, ◌∙◌}
use squirrel.Prelude.{
  ◌&&◌, none, some, List, [], ◌∷◌, ltb, leb, ◌==◌, if◌then◌else◌, length, get_or, set, length-set,
  length-replicate,
}
use squirrel.SkipList.{
  SkipList, Ptr, next_of, key_of, height_of, set_next, new_node, link_level, link_levels,
}

get_or-set {ℓ} :
    {A : Type ℓ} (xs : List A) (i j : ℕ) (v d : A)
    → get_or (set xs i v) j d ≡ (if (j == i) && ltb i (length xs) then v else get_or xs j d)
get_or-set [] i j v d = ground arith
get_or-set (x ∷ xs) zero zero v d = ground arith
get_or-set (x ∷ xs) zero (suc j) v d = ground arith
get_or-set (x ∷ xs) (suc i) zero v d = ground arith
get_or-set (x ∷ xs) (suc i) (suc j) v d = ground (arith, get_or-set xs i j v d)

module _ {K : Type 0} where
  next_of-set_next :
      (x l : ℕ) (p : Ptr) (s : SkipList K) (y i : ℕ)
      → next_of (set_next x l p s) y i
        ≡ (if (y == x) && ((i == l) && ltb l (height_of s x)) then p else next_of s y i)
  unfolding next_of set_next height_of
  next_of-set_next x l p s y i = ground (arith, get_or-set (s.nodes x).links l i p none)

  height_of-set_next :
      (x l : ℕ) (p : Ptr) (s : SkipList K) (y : ℕ) → height_of (set_next x l p s) y ≡ height_of s y
  unfolding height_of set_next
  height_of-set_next x l p s y = ground (arith, length-set (s.nodes x).links l p)

  key_of-set_next :
      (x l : ℕ) (p : Ptr) (s : SkipList K) (y : ℕ) → key_of (set_next x l p s) y ≡ key_of s y
  unfolding key_of set_next
  key_of-set_next x l p s y = ground arith

  height_of-link_level :
      (x : ℕ) (prev : ℕ → ℕ) (i : ℕ) (s : SkipList K) (y : ℕ)
      → height_of (link_level x prev i s) y ≡ height_of s y
  unfolding link_level
  height_of-link_level x prev i s y =
      height_of-set_next (prev i) i (some x) (set_next x i (next_of s (prev i) i) s) y
      ∙ height_of-set_next x i (next_of s (prev i) i) s y

  -- The two writes of one level.
  next_of-link_level :
      (x : ℕ) (prev : ℕ → ℕ) (i : ℕ) (s : SkipList K)
      → x ≢ prev i
      → i < height_of s x
      → i < height_of s (prev i)
      → (y j : ℕ)
      → next_of (link_level x prev i s) y j ≡ (
          if j == i
          then (if y == x
              then next_of s (prev i) i
              else if y == prev i
              then some x
              else next_of s y i)
          else next_of s y j)
  unfolding link_level
  next_of-link_level x prev i s ne hx hp y j =
      let p = next_of s (prev i) i in
      ground (
        arith,
        next_of-set_next (prev i) i (some x) (set_next x i p s) y j,
        next_of-set_next x i p s y j,
        height_of-set_next x i p s (prev i),
        ap (next_of s y) {x = j} {y = i},
      )

  pub height_of-link_levels :
      (x : ℕ) (prev : ℕ → ℕ) (n i : ℕ) (s : SkipList K) (y : ℕ)
      → height_of (link_levels x prev n i s) y ≡ height_of s y
  unfolding link_levels
  height_of-link_levels x prev zero i s y = refl
  height_of-link_levels x prev (suc n) i s y =
      height_of-link_levels x prev n (suc i) (link_level x prev i s) y
      ∙ height_of-link_level x prev i s y

  pub key_of-link_levels :
      (x : ℕ) (prev : ℕ → ℕ) (n i : ℕ) (s : SkipList K) (y : ℕ)
      → key_of (link_levels x prev n i s) y ≡ key_of s y
  unfolding link_levels link_level
  key_of-link_levels x prev zero i s y = refl
  key_of-link_levels x prev (suc n) i s y =
      key_of-link_levels x prev n (suc i) (link_level x prev i s) y
      ∙ (key_of-set_next (prev i) i (some x) (set_next x i (next_of s (prev i) i) s) y
          ∙ key_of-set_next x i (next_of s (prev i) i) s y)

  pub count-link_levels :
      (x : ℕ) (prev : ℕ → ℕ) (n i : ℕ) (s : SkipList K)
      → ((link_levels x prev n i s).count ≡ s.count)
        × ((link_levels x prev n i s).max_height ≡ s.max_height)
  unfolding link_levels link_level set_next
  count-link_levels x prev zero i s = (refl, refl)
  count-link_levels x prev (suc n) i s = count-link_levels x prev n (suc i) (link_level x prev i s)

  -- The loop splices `x` in behind `prev` on the levels from `i` to `i + n`, and changes no other
  -- link.
  pub next_of-link_levels :
      (x : ℕ) (prev : ℕ → ℕ) (n i : ℕ) (s : SkipList K)
      → ((j : ℕ) → i ≤ j → j < i + n → (x ≢ prev j) × (j < height_of s (prev j)))
      → i + n ≤ height_of s x
      → (y j : ℕ)
      → next_of (link_levels x prev n i s) y j ≡ (
          if leb i j && ltb j (i + n)
          then (if y == x
              then next_of s (prev j) j
              else if y == prev j
              then some x
              else next_of s y j)
          else next_of s y j)
  unfolding link_levels
  next_of-link_levels x prev zero i s at hx y j = ground arith
  next_of-link_levels x prev (suc n) i s at hx y j =
      let s' = link_level x prev i s in
      let (ne, hp) = at i (omega arith) (omega arith) in
      ground (
        arith,
        next_of-link_levels x prev n (suc i) s'
            (λ m le lt. (
              (at m (omega arith) (omega arith)).0,
              rw (height_of-link_level x prev i s (prev m)) (at m (omega arith) (omega arith)).1,
            ))
            (rw (height_of-link_level x prev i s x) (omega arith)) y j,
        next_of-link_level x prev i s ne (omega arith) hp y j,
        next_of-link_level x prev i s ne (omega arith) hp (prev j) j,
      )

  pub next_of-new_node :
      (k : K) (h : ℕ) (s : SkipList K) (y i : ℕ)
      → y ≢ s.count
      → next_of (new_node k h s) y i ≡ next_of s y i
  unfolding next_of new_node
  next_of-new_node k h s y i ne = ground arith

  pub height_of-new_node :
      (k : K) (h : ℕ) (s : SkipList K) (y : ℕ)
      → height_of (new_node k h s) y ≡ (if y == s.count then h else height_of s y)
  unfolding height_of new_node
  height_of-new_node k h s y = ground (arith, length-replicate {A = Ptr} h none)

  pub key_of-new_node :
      (k : K) (h : ℕ) (s : SkipList K) (y : ℕ)
      → key_of (new_node k h s) y ≡ (if y == s.count then k else key_of s y)
  unfolding key_of new_node
  key_of-new_node k h s y = ground arith
