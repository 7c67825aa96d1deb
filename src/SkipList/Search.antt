-- ===== src/SkipList/Search.antt =====
-- Where the searches of the skip list end, and that they end.
use squirrel.Prelude.{ℕ, zero, suc, ◌+◌, ◌≤◌, ◌<◌, ◌≡◌, refl, inl, inr, arith, ap, sym, ◌∙◌}
use squirrel.Prelude.{Bool, true, false, some, List, ◌∷◌, ◌++◌, ◌==◌, if◌then◌else◌, length, All}
use squirrel.SkipList.{
  SkipList, Ptr, Found, next_of, height_of, search_round, search_loop, after_round, returns, moves,
}
use squirrel.SkipList.Chain.{first_tall, last_tall, Links, SomeTall, tall_cases}

-- `prev[level] = x`
abbrev note : ℕ → ℕ → (ℕ → ℕ) → ℕ → ℕ
note x level prev i = if i == level then x else prev i

module _ {K : Type 0} (s : SkipList K) (goes : Ptr → Bool) where
  round_right :
      (x level y : ℕ) (prev : ℕ → ℕ)
      → next_of s x level ≡ some y
      → goes (some y) ≡ true
      → search_round goes s (record { x = x; level = level; prev = prev })
        ≡ moves (record { x = y; level = level; prev = prev })
  unfolding search_round
  round_right x level y prev e go = rw (e, go) refl

  round_down :
      (x level : ℕ) (prev : ℕ → ℕ)
      → goes (next_of s x (suc level)) ≡ false
      → search_round goes s (record { x = x; level = suc level; prev = prev })
        ≡ moves (record { x = x; level = level; prev = note x (suc level) prev })
  unfolding search_round
  round_down x level prev stay =
      let above : (suc level == 0) ≡ false = ground arith in
      rw (stay, above)
        (ap (λ l. moves (record { x = x; level = l; prev = note x (suc level) prev }))
          (omega arith))

  round_stop :
      (x : ℕ) (prev : ℕ → ℕ)
      → goes (next_of s x 0) ≡ false
      → search_round goes s (record { x = x; level = 0; prev = prev })
        ≡ returns (record { node = x; next = next_of s x 0; prev = note x 0 prev })
  unfolding search_round
  round_stop x prev stay = rw stay refl

module _ {K : Type 0} (s : SkipList K) (goes : Ptr → Bool) (post : List ℕ) where
  -- The search stops behind the nodes `ys`, and for each level that it has still to visit, `prev`
  -- is the last of them with that level.
  pub record StopsBehind (x level : ℕ) (prev : ℕ → ℕ) (ys : List ℕ) (f : Found) : Type 0 where
    pub node : f.node ≡ last_tall (height_of s) 0 x ys
    pub next : f.next ≡ first_tall (height_of s) 0 post
    pub prev_low : (j : ℕ) → j ≤ level → f.prev j ≡ last_tall (height_of s) j x ys
    pub prev_high : (j : ℕ) → level < j → f.prev j ≡ prev j

  abbrev Stops : ℕ → (x level : ℕ) → (ℕ → ℕ) → List ℕ → Type 0
  Stops fuel x level prev ys =
      (f : Found) × (search_loop goes s fuel (record { x = x; level = level; prev = prev })
        ≡ some f)
      × StopsBehind x level prev ys f

  goes_right :
      (fuel x level : ℕ) (prev : ℕ → ℕ) (ys : List ℕ) (t : SomeTall (height_of s) level ys)
      → Links (next_of s) (height_of s) (x ∷ (ys ++ post))
      → level < height_of s x
      → All (λ y. goes (some y) ≡ true) ys
      → Stops fuel t.y level prev t.ys
      → Stops (suc fuel) x level prev ys
  unfolding search_loop after_round
  goes_right fuel x level prev ys t links tall go (f, run, at) =
      let e : next_of s x level ≡ some t.y = links.0 level tall ∙ t.first post in
      rw (round_right s goes x level t.y prev e (t.holds (λ y. goes (some y) ≡ true) go).0) (
        f,
        run,
        record {
          node = at.node ∙ sym (t.last 0 x (omega arith));
          next = at.next;
          prev_low = λ j le. at.prev_low j le ∙ sym (t.last j x le);
          prev_high = at.prev_high;
        },
      )

  pub search_loop-Stops :
      ((j : ℕ) → goes (first_tall (height_of s) j post) ≡ false)
      → (fuel x level : ℕ) (prev : ℕ → ℕ) (ys : List ℕ)
      → Links (next_of s) (height_of s) (x ∷ (ys ++ post))
      → level < height_of s x
      → All (λ y. goes (some y) ≡ true) ys
      → length ys + level < fuel
      → Stops fuel x level prev ys
  unfolding search_loop after_round
  search_loop-Stops stop zero x level prev ys links tall go enough = absurd (omega arith)
  search_loop-Stops stop (suc fuel) x zero prev ys links tall go enough =
      elim (tall_cases (height_of s) 0 ys) [
        | inl n ↦
            let e : next_of s x 0 ≡ first_tall (height_of s) 0 post =
              links.0 0 tall ∙ n.first post in
            rw (round_stop s goes x prev (rw e (stop 0))) (
              record { node = x; next = next_of s x 0; prev = note x 0 prev },
              refl,
              record {
                node = sym (n.last x);
                next = e;
                prev_low = λ j le. ground (arith, n.last x);
                prev_high = λ j lt. ground arith;
              },
            )
        | inr t ↦ goes_right fuel x 0 prev ys t links tall go (
            search_loop-Stops stop fuel t.y 0 prev t.ys (t.links (next_of s) post links.1) t.tall
              (t.holds (λ y. goes (some y) ≡ true) go).1 (omega (arith, t.shorter)))
      ]
  search_loop-Stops stop (suc fuel) x (suc level) prev ys links tall go enough =
      elim (tall_cases (height_of s) (suc level) ys) [
        | inl n ↦
            let e : next_of s x (suc level) ≡ first_tall (height_of s) (suc level) post =
              links.0 (suc level) tall ∙ n.first post in
            let (f, run, at) =
              search_loop-Stops stop fuel x level (note x (suc level) prev) ys links (omega arith)
                go (omega arith) in
            rw (round_down s goes x level prev (rw e (stop (suc level)))) (
              f,
              run,
              record {
                node = at.node;
                next = at.next;
                prev_low = λ j le. ground (arith, n.last x, at.prev_low j, at.prev_high j);
                prev_high = λ j lt. ground (arith, at.prev_high j);
              },
            )
        | inr t ↦ goes_right fuel x (suc level) prev ys t links tall go (
            search_loop-Stops stop fuel t.y (suc level) prev t.ys (t.links (next_of s) post links.1)
              t.tall (t.holds (λ y. goes (some y) ≡ true) go).1 (omega (arith, t.shorter)))
      ]
