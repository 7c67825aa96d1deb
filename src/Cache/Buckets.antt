-- ===== src/Cache/Buckets.antt =====
-- The array of chains, and that a resize finds the same entries.
use squirrel.Prelude.{
  ℕ, zero, suc, ◌+◌, ◌-◌, ◌≤◌, ◌≡◌, ◌≢◌, refl, sym, ap, ◌∙◌, subst, arith, inl, inr, Bool-cases,
}
use squirrel.Prelude.{
  true, false, ◌&&◌, none, List, [], ◌∷◌, ◌++◌, ◌==◌, ltb, leb, if◌then◌else◌, All, All-append,
  length, get_or, set,
}
use squirrel.Cache.{Handles, move_chain, move_all}
use squirrel.SkipList.Distinct.{All-weaken}
use squirrel.Cache.Chains.{or_else, find, same, Unique}

abbrev pub concat : List (List ℕ) → List ℕ
concat [] = []
concat (c ∷ cs) = c ++ concat cs

pub get_or-set_bucket :
    (bs : List (List ℕ)) (i j : ℕ) (c : List ℕ)
    → get_or (set bs i c) j [] ≡ (if (j == i) && ltb i (length bs) then c else get_or bs j [])
get_or-set_bucket [] i j c = ground arith
get_or-set_bucket (b ∷ bs) zero zero c = ground arith
get_or-set_bucket (b ∷ bs) zero (suc j) c = ground arith
get_or-set_bucket (b ∷ bs) (suc i) zero c = ground arith
get_or-set_bucket (b ∷ bs) (suc i) (suc j) c = ground (arith, get_or-set_bucket bs i j c)

module _ (handles : Handles) where
  find-append :
      (key : List ℕ) (hash : ℕ) (xs ys : List ℕ)
      → find handles key hash (xs ++ ys)
        ≡ or_else (find handles key hash xs) (find handles key hash ys)
  find-append key hash [] ys = refl
  find-append key hash (x ∷ xs) ys = ground (arith, find-append key hash xs ys)

  Unique-append :
      (xs ys : List ℕ)
      → Unique handles xs
      → Unique handles ys
      → All (λ x. All (λ y. same handles x y ≡ false) ys) xs
      → Unique handles (xs ++ ys)
  Unique-append [] ys u v a = v
  Unique-append (x ∷ xs) ys u v a =
      (All-append (λ y. same handles x y ≡ false) xs ys u.0 a.0, Unique-append xs ys u.1 v a.1)

  move_chain-append :
      (n : ℕ) (xs ys : List ℕ) (new_list : List (List ℕ))
      → move_chain handles n (xs ++ ys) new_list
        ≡ move_chain handles n ys (move_chain handles n xs new_list)
  unfolding move_chain
  move_chain-append n [] ys new_list = refl
  move_chain-append n (x ∷ xs) ys new_list = move_chain-append n xs ys _

  pub move_all-concat :
      (n : ℕ) (cs new_list : List (List ℕ))
      → move_all handles n cs new_list ≡ move_chain handles n (concat cs) new_list
  unfolding move_all
  move_all-concat n [] new_list = unfold move_chain in refl
  move_all-concat n (c ∷ cs) new_list =
      move_all-concat n cs (move_chain handles n c new_list)
      ∙ sym (move_chain-append n c (concat cs) new_list)

  module _ (slot : ℕ → ℕ) where
    abbrev pub slot_at : ℕ → ℕ
    slot_at h = slot (handles h).hash

    -- Chain `j` of the array stands for slot `i + j`.
    abbrev pub Placed : ℕ → List (List ℕ) → Type 0
    Placed i cs = (j : ℕ) → All (λ h. slot_at h ≡ i + j) (get_or cs j [])

    Placed-tail : (i : ℕ) (c : List ℕ) (cs : List (List ℕ)) → Placed i (c ∷ cs) → Placed (suc i) cs
    Placed-tail i c cs p j =
        subst (λ k. All (λ h. slot_at h ≡ k) (get_or cs j [])) (omega arith) (p (suc j))

    find_elsewhere :
        (key : List ℕ) (hash i : ℕ) (xs : List ℕ)
        → All (λ h. slot_at h ≡ i) xs
        → slot hash ≢ i
        → find handles key hash xs ≡ none
    find_elsewhere key hash i [] a ne = refl
    find_elsewhere key hash i (x ∷ xs) a ne =
        ground (
          arith,
          find_elsewhere key hash i xs a.1 ne,
          a.0,
          ap slot {x = (handles x).hash} {y = hash},
        )

    pub find-concat :
        (key : List ℕ) (hash i : ℕ) (cs : List (List ℕ))
        → Placed i cs
        → find handles key hash (concat cs) ≡ (
            if leb i (slot hash)
            then find handles key hash (get_or cs (slot hash - i) [])
            else none)
    find-concat key hash i [] p = ground arith
    find-concat key hash i (c ∷ cs) p =
        let here : All (λ h. slot_at h ≡ i) c =
          subst (λ k. All (λ h. slot_at h ≡ k) c) (omega arith) (p 0) in
        let rest = find-concat key hash (suc i) cs (Placed-tail i c cs p) in
        elim (Bool-cases (slot hash == i)) [
          | inl at ↦
              let first_chain : slot hash - i ≡ 0 = ground arith in
              let now : leb i (slot hash) ≡ true = ground arith in
              let later : leb (suc i) (slot hash) ≡ false = ground arith in
              rw (find-append key hash c (concat cs), rest, first_chain, now, later) (ground arith)
          | inr off ↦
              let none_here = find_elsewhere key hash i c here (ground (arith, off)) in
              elim (Bool-cases (leb i (slot hash))) [
                | inl above ↦
                    let later : leb (suc i) (slot hash) ≡ true = ground arith in
                    let next_one : slot hash - i ≡ suc (slot hash - suc i) = ground arith in
                    rw (find-append key hash c (concat cs), none_here, rest, above, later, next_one)
                      refl
                | inr below ↦
                    let later : leb (suc i) (slot hash) ≡ false = ground arith in
                    rw (find-append key hash c (concat cs), none_here, rest, below, later) refl
              ]
        ]

    All-above : (i : ℕ) (cs : List (List ℕ)) → Placed i cs → All (λ x. i ≤ slot_at x) (concat cs)
    All-above i [] p = tt
    All-above i (c ∷ cs) p =
        All-append (λ x. i ≤ slot_at x) c (concat cs)
          (All-weaken (λ h. slot_at h ≡ i + 0) c (λ x e. omega (arith, e)) (p 0))
          (All-weaken (λ x. suc i ≤ slot_at x) (concat cs) (λ x h. omega (arith, h))
            (All-above (suc i) cs (Placed-tail i c cs p)))

    apart-slots :
        (h i : ℕ) (xs : List ℕ)
        → slot_at h ≡ i
        → All (λ x. suc i ≤ slot_at x) xs
        → All (λ x. same handles h x ≡ false) xs
    apart-slots h i [] e a = tt
    apart-slots h i (x ∷ xs) e a = (
      ground (arith, a.0, ap slot {x = (handles h).hash} {y = (handles x).hash}),
      apart-slots h i xs e a.1,
    )

    apart-chains :
        (i : ℕ) (c xs : List ℕ)
        → All (λ h. slot_at h ≡ i) c
        → All (λ x. suc i ≤ slot_at x) xs
        → All (λ h. All (λ x. same handles h x ≡ false) xs) c
    apart-chains i [] xs e a = tt
    apart-chains i (h ∷ c) xs e a = (apart-slots h i xs e.0 a, apart-chains i c xs e.1 a)

    pub Unique-concat :
        (i : ℕ) (cs : List (List ℕ))
        → Placed i cs
        → ((j : ℕ) → Unique handles (get_or cs j []))
        → Unique handles (concat cs)
    Unique-concat i [] p u = tt
    Unique-concat i (c ∷ cs) p u =
        Unique-append c (concat cs) (u 0)
          (Unique-concat (suc i) cs (Placed-tail i c cs p) (λ j. u (suc j)))
          (apart-chains i c (concat cs)
            (subst (λ k. All (λ h. slot_at h ≡ k) c) (omega arith) (p 0))
            (All-above (suc i) cs (Placed-tail i c cs p)))
