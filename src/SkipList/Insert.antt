-- ===== src/SkipList/Insert.antt =====
-- `Insert` keeps the invariant, and puts the key where it belongs.
use squirrel.Prelude.{ℕ, zero, suc, ◌+◌, ◌≤◌, ◌<◌, ◌≡◌, ◌≢◌, arith, sym, ◌∙◌}
use squirrel.Prelude.{◌&&◌, some, ltb, ◌==◌, if◌then◌else◌}
use squirrel.Random.{Random}
use squirrel.SkipList.{
  SkipList, max_levels, next_of, key_of, height_of, random_height, random_height_loop,
}
use squirrel.SkipList.{fill_prev, new_node, insert_after}
use squirrel.SkipList.Memory

random_height_loop_bounds :
    (fuel height : ℕ) (rnd : Random)
    → 0 < height
    → height ≤ max_levels
    → (0 < (random_height_loop fuel height rnd).0)
      × ((random_height_loop fuel height rnd).0 ≤ max_levels)
unfolding random_height_loop
random_height_loop_bounds zero height rnd h g = (h, g)
random_height_loop_bounds (suc fuel) height rnd h g =
    ground (arith, random_height_loop_bounds fuel (height + 1) (squirrel.Random.next rnd))

pub random_height_bounds :
    (rnd : Random) → (0 < (random_height rnd).0) × ((random_height rnd).0 ≤ max_levels)
unfolding random_height
random_height_bounds rnd = random_height_loop_bounds max_levels 1 rnd (omega arith) (omega arith)

module _ {K : Type 0} (s : SkipList K) (k : K) (prev : ℕ → ℕ) where
  abbrev pub new_height : ℕ
  new_height = (random_height s.rnd).0

  abbrev pub filled : ℕ → ℕ
  filled = fill_prev s.max_height new_height prev

  abbrev topped : SkipList K
  topped = record s {
    max_height = if ltb s.max_height new_height then new_height else s.max_height;
    rnd = (random_height s.rnd).1;
  }

  pub height_of-insert_after :
      (y : ℕ)
      → height_of (insert_after k prev s) y ≡ (if y == s.count then new_height else height_of s y)
  unfolding insert_after height_of
  height_of-insert_after y =
      Memory.height_of-link_levels s.count filled new_height 0 (new_node k new_height topped) y
      ∙ Memory.height_of-new_node k new_height topped y

  pub key_of-insert_after :
      (y : ℕ) → key_of (insert_after k prev s) y ≡ (if y == s.count then k else key_of s y)
  unfolding insert_after key_of
  key_of-insert_after y =
      Memory.key_of-link_levels s.count filled new_height 0 (new_node k new_height topped) y
      ∙ Memory.key_of-new_node k new_height topped y

  pub count-insert_after :
      ((insert_after k prev s).count ≡ s.count + 1)
      × ((insert_after k prev s).max_height
          ≡ (if ltb s.max_height new_height then new_height else s.max_height))
  unfolding insert_after new_node
  count-insert_after =
      Memory.count-link_levels s.count filled new_height 0 (new_node k new_height topped)

  module _
      (at : (j : ℕ) → j < new_height → (s.count ≢ filled j) × (j < height_of s (filled j))) where
    next_of-insert_after :
        (y j : ℕ)
        → next_of (insert_after k prev s) y j ≡ (
            if ltb j new_height
            then (if y == s.count
                then next_of (new_node k new_height topped) (filled j) j
                else if y == filled j
                then some s.count
                else next_of (new_node k new_height topped) y j)
            else next_of (new_node k new_height topped) y j)
    unfolding insert_after
    next_of-insert_after y j =
        let high : (z : ℕ)
            → height_of (new_node k new_height topped) z
              ≡ (if z == s.count then new_height else height_of s z) =
          unfold height_of in Memory.height_of-new_node k new_height topped in
        ground (
          arith,
          Memory.next_of-link_levels s.count filled new_height 0 (new_node k new_height topped)
              (λ i le lt. ((at i (omega arith)).0, ground (arith, at i, high (filled i))))
              (ground (arith, high s.count)) y j,
        )

    pub old_next-insert_after :
        (y j : ℕ)
        → y ≢ s.count
        → next_of (insert_after k prev s) y j
          ≡ (if ltb j new_height && (y == filled j) then some s.count else next_of s y j)
    old_next-insert_after y j ne =
        let same : next_of (new_node k new_height topped) y j ≡ next_of s y j =
          unfold next_of in Memory.next_of-new_node k new_height topped y j ne in
        ground (arith, next_of-insert_after y j)

    pub new_next-insert_after :
        (j : ℕ)
        → j < new_height
        → next_of (insert_after k prev s) s.count j ≡ next_of s (filled j) j
    new_next-insert_after j lt =
        let same : next_of (new_node k new_height topped) (filled j) j ≡ next_of s (filled j) j =
          unfold next_of in
          Memory.next_of-new_node k new_height topped (filled j) j (λ e. (at j lt).0 (sym e)) in
        ground (arith, next_of-insert_after s.count j)
