-- ===== src/SkipList/Chain.antt =====
-- The levels of a skip list as one list of nodes: level `i` links the nodes that are higher than `i`.
use native.Mathlib.Decide.{dec_lt}
use squirrel.Prelude.{ℕ, ◌≤◌, ◌<◌, ◌≡◌, ◌≢◌, refl, ◌⊎◌, inl, inr, arith, ap}
use squirrel.Prelude.{Option, none, some, List, [], ◌∷◌, ◌++◌, ltb, if◌then◌else◌, length, All}

-- The first and the last node that is higher than `i`; `x` where there is none.
abbrev pub first_tall : (ℕ → ℕ) → ℕ → List ℕ → Option ℕ
first_tall height i [] = none
first_tall height i (y ∷ ys) = if ltb i (height y) then some y else first_tall height i ys

abbrev pub last_tall : (ℕ → ℕ) → ℕ → ℕ → List ℕ → ℕ
last_tall height i x [] = x
last_tall height i x (y ∷ ys) = last_tall height i (if ltb i (height y) then y else x) ys

-- Every node of a list is linked, on each of its levels, to the next node that has that level.
abbrev pub Linked : (ℕ → ℕ → Option ℕ) → (ℕ → ℕ) → ℕ → List ℕ → Type 0
Linked next height x ys = (i : ℕ) → i < height x → next x i ≡ first_tall height i ys

abbrev pub Links : (ℕ → ℕ → Option ℕ) → (ℕ → ℕ) → List ℕ → Type 0
Links next height [] = Unit {0}
Links next height (x ∷ xs) = Linked next height x xs × Links next height xs

abbrev pub Distinct : List ℕ → Type 0
Distinct [] = Unit {0}
Distinct (x ∷ xs) = All (λ y. x ≢ y) xs × Distinct xs

module _ (height : ℕ → ℕ) (i : ℕ) where
  -- No node of `xs` has level `i`.
  pub record NoneTall (xs : List ℕ) : Type 0 where
    pub first : (ws : List ℕ) → first_tall height i (xs ++ ws) ≡ first_tall height i ws
    pub last : (x : ℕ) → last_tall height i x xs ≡ x

  -- `y` is the first node of `xs` that has level `i`, and `ys` is what is behind it.
  pub record SomeTall (xs : List ℕ) : Type 1 where
    pub y : ℕ
    pub ys : List ℕ
    pub tall : i < height y
    pub shorter : length ys < length xs
    pub first : (ws : List ℕ) → first_tall height i (xs ++ ws) ≡ some y
    pub last : (j z : ℕ) → j ≤ i → last_tall height j z xs ≡ last_tall height j y ys
    pub links :
        (next : ℕ → ℕ → Option ℕ) (ws : List ℕ)
        → Links next height (xs ++ ws)
        → Links next height (y ∷ (ys ++ ws))
    pub holds : (P : ℕ → Type 0) → All P xs → P y × All P ys

  pub tall_cases : (xs : List ℕ) → NoneTall xs ⊎ SomeTall xs
  tall_cases [] = inl (record { first = λ ws. refl; last = λ x. refl })
  tall_cases (y ∷ xs) = elim (dec_lt i (height y)) [
    | yes h ↦ inr (record {
      y = y;
      ys = xs;
      tall = h;
      shorter = omega arith;
      first = λ ws. ground arith;
      last = λ j z le. ap (λ w. last_tall height j w xs) (ground arith);
      links = λ next ws l. l;
      holds = λ P a. a;
    })
    | no h ↦ elim (tall_cases xs) [
      | inl none_tall ↦ inl (record {
        first = λ ws. ground (arith, none_tall.first ws);
        last = λ x. ground (arith, none_tall.last x);
      })
      | inr t ↦ inr (record {
        y = t.y;
        ys = t.ys;
        tall = t.tall;
        shorter = omega (arith, t.shorter);
        first = λ ws. ground (arith, t.first ws);
        last = λ j z le. t.last j (if ltb j (height y) then y else z) le;
        links = λ next ws l. t.links next ws l.1;
        holds = λ P a. t.holds P a.1;
      })
    ]
  ]
