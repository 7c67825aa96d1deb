-- ===== src/Cache/Resize.antt =====
-- A resize moves every entry, and all are found again.
use squirrel.Prelude.{
  ℕ, ◌+◌, ◌-◌, ◌^◌, ◌<◌, ◌≡◌, refl, ap, ◌∙◌, subst, arith, inl, inr, Bool-cases, lt→ltb, bit_and,
  pow_pos,
}
use squirrel.Prelude.{
  false, Option, none, some, List, [], ◌∷◌, ◌==◌, if◌then◌else◌, All, length, length-set, get_or,
  set,
}
use squirrel.Prelude.Masks.{and_mask}
use squirrel.Cache.{Handles, matches, move_chain}
use squirrel.Cache.Chains.{or_else, find, same, Unique, find-none, same_comm}
use squirrel.Cache.Buckets.{get_or-set_bucket, Placed}

-- The slot of a hash in an array of `n` chains.
abbrev pub slot : ℕ → ℕ → ℕ
slot n hash = bit_and hash (n - 1)

-- `n` chains, each entry in the chain of its hash, and no two with the same hash and key.
pub record IsArray (handles : Handles) (n : ℕ) (chains : List (List ℕ)) : Type 0 where
  pub size : length chains ≡ n
  pub placed : Placed handles (slot n) 0 chains
  pub unique : (j : ℕ) → Unique handles (get_or chains j [])

pub slot_lt : (k hash : ℕ) → slot (2 ^ k) hash < 2 ^ k
slot_lt k hash = omega (arith, and_mask k hash, pow_pos k)

module _ (handles : Handles) where
  unmatched :
      (h : ℕ) (xs : List ℕ)
      → find handles (handles h).key (handles h).hash xs ≡ none
      → All (λ x. same handles h x ≡ false) xs
  unmatched h [] e = tt
  unmatched h (x ∷ xs) e = elim (Bool-cases (same handles h x)) [
    | inl m ↦ absurd (ground (arith, e, m))
    | inr m ↦ (m, unmatched h xs (ground (arith, e, m)))
  ]

  module _ (k : ℕ) where
    abbrev n : ℕ
    n = 2 ^ k

    -- What an array finds.
    abbrev pub found : List ℕ → ℕ → List (List ℕ) → Option ℕ
    found key hash chains = find handles key hash (get_or chains (slot n hash) [])

    abbrev own : ℕ → List (List ℕ) → Option ℕ
    own h chains = found (handles h).key (handles h).hash chains

    abbrev move : ℕ → List (List ℕ) → List (List ℕ)
    move h chains =
        set chains (slot n (handles h).hash) (h ∷ get_or chains (slot n (handles h).hash) [])

    found-move :
        (key : List ℕ) (hash h : ℕ) (chains : List (List ℕ))
        → length chains ≡ n
        → found key hash (move h chains)
          ≡ (if matches handles key hash h then some h else found key hash chains)
    found-move key hash h chains size =
        let i = slot n (handles h).hash in
        let in_range : i < length chains = omega (arith, slot_lt k (handles h).hash, size) in
        rw (get_or-set_bucket chains i (slot n hash) (h ∷ get_or chains i []))
          (elim (Bool-cases (slot n hash == i)) [
            | inl at ↦
                let e : slot n hash ≡ i = ground arith in
                rw (at, lt→ltb i (length chains) in_range, e) refl
            | inr off ↦
                let miss : matches handles key hash h ≡ false =
                  ground (arith, ap (slot n) {x = (handles h).hash} {y = hash}) in
                rw (off, miss) refl
          ])

    move-IsArray :
        (h : ℕ) (chains : List (List ℕ))
        → own h chains ≡ none
        → IsArray handles n chains
        → IsArray handles n (move h chains)
    move-IsArray h chains new v =
        let i = slot n (handles h).hash in
        let in_range : i < length chains = omega (arith, slot_lt k (handles h).hash, v.size) in
        record {
          size = length-set chains i (h ∷ get_or chains i []) ∙ v.size;
          placed = λ j.
              rw (get_or-set_bucket chains i j (h ∷ get_or chains i []))
                (elim (Bool-cases (j == i)) [
                  | inl at ↦
                      rw (at, lt→ltb i (length chains) in_range)
                        (
                          ground arith,
                          subst
                              (λ m. All (λ x. slot n (handles x).hash ≡ 0 + m) (get_or chains i []))
                              (ground arith) (v.placed i),
                        )
                  | inr off ↦ rw off (v.placed j)
                ]);
          unique = λ j.
              rw (get_or-set_bucket chains i j (h ∷ get_or chains i []))
                (elim (Bool-cases (j == i)) [
                  | inl at ↦
                      rw (at, lt→ltb i (length chains) in_range)
                        (unmatched h (get_or chains i []) new, v.unique i)
                  | inr off ↦ rw off (v.unique j)
                ]);
        }

    still_new :
        (g : ℕ) (chains : List (List ℕ)) (xs : List ℕ)
        → length chains ≡ n
        → All (λ x. same handles g x ≡ false) xs
        → All (λ x. own x chains ≡ none) xs
        → All (λ x. own x (move g chains) ≡ none) xs
    still_new g chains [] size apart new = tt
    still_new g chains (x ∷ xs) size apart new = (
      found-move (handles x).key (handles x).hash g chains size
          ∙ rw (same_comm handles g x apart.0) new.0,
      still_new g chains xs size apart.1 new.1,
    )

    pub move_chain-found :
        (xs : List ℕ) (chains : List (List ℕ))
        → IsArray handles n chains
        → Unique handles xs
        → All (λ x. own x chains ≡ none) xs
        → IsArray handles n (move_chain handles n xs chains)
          × ((key : List ℕ) (hash : ℕ)
              → found key hash (move_chain handles n xs chains)
                ≡ or_else (find handles key hash xs) (found key hash chains))
    unfolding move_chain
    move_chain-found [] chains v u new = (v, λ key hash. refl)
    move_chain-found (g ∷ xs) chains v u new =
        let rest =
          move_chain-found xs (move g chains) (move-IsArray g chains new.0 v) u.1
            (still_new g chains xs v.size u.0 new.1) in
        (
          rest.0,
          λ key hash.
              rest.1 key hash
              ∙ rw (found-move key hash g chains v.size)
                  (ground (arith, find-none handles key hash g xs)),
        )
