-- ===== src/Cache/Chains.antt =====
-- The chains of the hash table.
use squirrel.Prelude.{ℕ, ◌≡◌, refl, arith, inl, inr, Bool-cases}
use squirrel.Prelude.{
  Bool, true, false, ◌&&◌, Option, none, some, List, [], ◌∷◌, ◌++◌, ◌==◌, if◌then◌else◌, All,
}
use squirrel.Slice.{slice_eq}
use squirrel.Slice.Order.{slice_eq_iff}
use squirrel.Cache.{Handles, matches, find_in_chain, first, behind}

abbrev pub or_else : Option ℕ → Option ℕ → Option ℕ
or_else none b = b
or_else (some a) b = some a

module _ (handles : Handles) where
  -- The first entry of a key in a chain.
  abbrev pub find : List ℕ → ℕ → List ℕ → Option ℕ
  find key hash [] = none
  find key hash (h ∷ chain) = if matches handles key hash h then some h else find key hash chain

  -- Two handles have the same hash and key.
  abbrev pub same : ℕ → ℕ → Bool
  same h g = matches handles (handles h).key (handles h).hash g

  -- No two entries of a chain have the same hash and key.
  abbrev pub Unique : List ℕ → Type 0
  Unique [] = Unit {0}
  Unique (h ∷ chain) = All (λ g. same h g ≡ false) chain × Unique chain

  -- Handles of the same hash and key match alike.
  pub matches-same :
      (key : List ℕ) (hash h g : ℕ)
      → same h g ≡ true
      → matches handles key hash h ≡ matches handles key hash g
  matches-same key hash h g e = ground (
    arith,
    slice_eq_iff (handles h).key (handles g).key,
    slice_eq_iff key (handles h).key,
    slice_eq_iff key (handles g).key,
  )

  pub same_of_matches :
      (key : List ℕ) (hash h g : ℕ)
      → matches handles key hash h ≡ true
      → matches handles key hash g ≡ true
      → same h g ≡ true
  same_of_matches key hash h g e f = ground (
    arith,
    slice_eq_iff (handles h).key (handles g).key,
    slice_eq_iff key (handles h).key,
    slice_eq_iff key (handles g).key,
  )

  pub same_comm : (h g : ℕ) → same h g ≡ false → same g h ≡ false
  same_comm h g e = ground (
    arith,
    slice_eq_iff (handles h).key (handles g).key,
    slice_eq_iff (handles g).key (handles h).key,
  )

  same_left : (h g x : ℕ) → same h g ≡ true → same g x ≡ false → same h x ≡ false
  same_left h g x e f = ground (
    arith,
    slice_eq_iff (handles h).key (handles g).key,
    slice_eq_iff (handles h).key (handles x).key,
    slice_eq_iff (handles g).key (handles x).key,
  )

  All-same_left :
      (h g : ℕ) (chain : List ℕ)
      → same h g ≡ true
      → All (λ x. same g x ≡ false) chain
      → All (λ x. same h x ≡ false) chain
  All-same_left h g [] e a = tt
  All-same_left h g (x ∷ chain) e a = (same_left h g x e a.0, All-same_left h g chain e a.1)

  -- The chain with `h` in its place, and without the entry of a key.
  unfoldable pub put : ℕ → List ℕ → List ℕ
  put h chain =
      let (before, from) = find_in_chain handles (handles h).key (handles h).hash chain in
      before ++ (h ∷ behind from)

  unfoldable pub take_out : List ℕ → ℕ → List ℕ → List ℕ
  take_out key hash chain =
      let (before, from) = find_in_chain handles key hash chain in before ++ behind from

  pub first-find :
      (key : List ℕ) (hash : ℕ) (chain : List ℕ)
      → first (find_in_chain handles key hash chain).1 ≡ find key hash chain
  unfolding find_in_chain
  first-find key hash [] = refl
  first-find key hash (g ∷ chain) = elim (Bool-cases (matches handles key hash g)) [
    | inl e ↦ rw e refl
    | inr e ↦ rw e (first-find key hash chain)
  ]

  pub put-cons :
      (h g : ℕ) (chain : List ℕ)
      → put h (g ∷ chain) ≡ (if same h g then h ∷ chain else g ∷ put h chain)
  unfolding put find_in_chain
  put-cons h g chain = elim (Bool-cases (same h g)) [ inl e ↦ rw e refl | inr e ↦ rw e refl ]

  pub take_out-cons :
      (key : List ℕ) (hash g : ℕ) (chain : List ℕ)
      → take_out key hash (g ∷ chain)
        ≡ (if matches handles key hash g then chain else g ∷ take_out key hash chain)
  unfolding take_out find_in_chain
  take_out-cons key hash g chain = elim (Bool-cases (matches handles key hash g)) [
    | inl e ↦ rw e refl
    | inr e ↦ rw e refl
  ]

  pub find-put :
      (key : List ℕ) (hash h : ℕ) (chain : List ℕ)
      → find key hash (put h chain)
        ≡ (if matches handles key hash h then some h else find key hash chain)
  find-put key hash h [] = unfold put find_in_chain in refl
  find-put key hash h (g ∷ chain) = rw (put-cons h g chain) (elim (Bool-cases (same h g)) [
    | inl e ↦ rw e (ground (arith, matches-same key hash h g e))
    | inr e ↦ rw e (ground (arith, find-put key hash h chain, same_of_matches key hash h g))
  ])

  pub find-none :
      (key : List ℕ) (hash g : ℕ) (chain : List ℕ)
      → matches handles key hash g ≡ true
      → All (λ x. same g x ≡ false) chain
      → find key hash chain ≡ none
  find-none key hash g [] e a = refl
  find-none key hash g (x ∷ chain) e a =
      ground (arith, find-none key hash g chain e a.1, a.0, same_of_matches key hash g x)

  pub find-take_out :
      (key key' : List ℕ) (hash hash' : ℕ) (chain : List ℕ)
      → Unique chain
      → find key' hash' (take_out key hash chain)
        ≡ (if (hash' == hash) && slice_eq key' key then none else find key' hash' chain)
  find-take_out key key' hash hash' [] u = unfold take_out find_in_chain in ground arith
  find-take_out key key' hash hash' (g ∷ chain) u =
      rw (take_out-cons key hash g chain) (elim (Bool-cases (matches handles key hash g)) [
        | inl e ↦ rw e (
            ground (
              arith,
              find-none key hash g chain e u.0,
              slice_eq_iff key' key,
              slice_eq_iff key (handles g).key,
              slice_eq_iff key' (handles g).key,
            ))
        | inr e ↦
            rw e
              (ground (arith, find-take_out key key' hash hash' chain u.1, slice_eq_iff key' key))
      ])

  pub All-put : (P : ℕ → Type 0) (h : ℕ) (chain : List ℕ) → P h → All P chain → All P (put h chain)
  All-put P h [] p a = unfold put find_in_chain in (p, tt)
  All-put P h (g ∷ chain) p a = rw (put-cons h g chain) (elim (Bool-cases (same h g)) [
    | inl e ↦ rw e (p, a.1)
    | inr e ↦ rw e (a.0, All-put P h chain p a.1)
  ])

  pub put-Unique : (h : ℕ) (chain : List ℕ) → Unique chain → Unique (put h chain)
  put-Unique h [] u = unfold put find_in_chain in (tt, tt)
  put-Unique h (g ∷ chain) u = rw (put-cons h g chain) (elim (Bool-cases (same h g)) [
    | inl e ↦ rw e (All-same_left h g chain e u.0, u.1)
    | inr e ↦
        rw e (All-put (λ x. same g x ≡ false) h chain (same_comm h g e) u.0, put-Unique h chain u.1)
  ])

  pub All-take_out :
      (P : ℕ → Type 0) (key : List ℕ) (hash : ℕ) (chain : List ℕ)
      → All P chain
      → All P (take_out key hash chain)
  All-take_out P key hash [] a = unfold take_out find_in_chain in tt
  All-take_out P key hash (g ∷ chain) a =
      rw (take_out-cons key hash g chain) (elim (Bool-cases (matches handles key hash g)) [
        | inl e ↦ rw e a.1
        | inr e ↦ rw e (a.0, All-take_out P key hash chain a.1)
      ])

  pub take_out-Unique :
      (key : List ℕ) (hash : ℕ) (chain : List ℕ) → Unique chain → Unique (take_out key hash chain)
  take_out-Unique key hash [] u = unfold take_out find_in_chain in tt
  take_out-Unique key hash (g ∷ chain) u =
      rw (take_out-cons key hash g chain) (elim (Bool-cases (matches handles key hash g)) [
        | inl e ↦ rw e u.1
        | inr e ↦ rw e (
          All-take_out (λ x. same g x ≡ false) key hash chain u.0,
          take_out-Unique key hash chain u.1,
        )
      ])
