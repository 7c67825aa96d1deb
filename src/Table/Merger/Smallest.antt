-- ===== src/Table/Merger/Smallest.antt =====
-- The child that the merging iterator moves to.
use Prim.Native.Nat.{Ordering}
use squirrel.Prelude.{
  ℕ, zero, suc, ◌≡◌, ◌≢◌, refl, sym, ap, subst, ◌∙◌, inl, inr, ◌⊎◌, Bool-cases, true, false, Option,
  none, some, List, [], ◌∷◌, ◌++◌, append-nil, append_assoc, All, All-append, length, length-append,
  get_elem?, take, take-length_append, if◌then◌else◌, arith,
}
use squirrel.Comparator.{Comparator, IsComparator}
use squirrel.SkipList.Distinct.{All-weaken}
use squirrel.Table.Merger.{
  Iterator, MergingIterator, is_lt, smaller, smallest_from, number_of, find_smallest,
}

is_lt-lt : (o : Ordering) → is_lt o ≡ true → o ≡ Ordering.lt
is_lt-lt Ordering.lt e = refl
is_lt-lt Ordering.eq e = cc e
is_lt-lt Ordering.gt e = cc e

module _ {C : Type 0} where
  get_elem?-append_left :
      (xs ys : List C) (i : ℕ) (c : C) → get_elem? xs i ≡ some c → get_elem? (xs ++ ys) i ≡ some c
  get_elem?-append_left [] ys i c e = cc e
  get_elem?-append_left (x ∷ xs) ys zero c e = e
  get_elem?-append_left (x ∷ xs) ys (suc i) c e = get_elem?-append_left xs ys i c e

  get_elem?-last : (xs : List C) (c : C) → get_elem? (xs ++ (c ∷ [])) (length xs) ≡ some c
  get_elem?-last [] c = refl
  get_elem?-last (x ∷ xs) c = get_elem?-last xs c

  take-append_left :
      (xs ys : List C) (i : ℕ) (c : C) → get_elem? xs i ≡ some c → take i (xs ++ ys) ≡ take i xs
  take-append_left [] ys i c e = cc e
  take-append_left (x ∷ xs) ys zero c e = refl
  take-append_left (x ∷ xs) ys (suc i) c e = ap (λ t. x ∷ t) (take-append_left xs ys i c e)

module _ {C : Type 0} (it : Iterator C) (cmp : Comparator) where
  -- A valid child `d` has a key that is not smaller than that of `c`, or one that is larger.
  abbrev pub NotSmaller : C → C → Type 0
  NotSmaller c d = it.valid d ≡ true → cmp.compare (it.key c) (it.key d) ≢ Ordering.gt

  abbrev pub Larger : C → C → Type 0
  Larger c d = it.valid d ≡ true → cmp.compare (it.key c) (it.key d) ≡ Ordering.lt

  abbrev pub Invalid : C → Type 0
  Invalid d = it.valid d ≡ false

  -- Child `c` is the one of number `i`. It is valid, its key is not larger than that of any valid
  -- child, and smaller than that of any valid child before it.
  pub record IsFirstSmallest (i : ℕ) (c : C) (cs : List C) : Type 0 where
    pub at : get_elem? cs i ≡ some c
    pub is_valid : it.valid c ≡ true
    pub least : All (NotSmaller c) cs
    pub before : All (Larger c) (take i cs)

  -- What a search has found, where the children that have been looked at are `cs`.
  abbrev pub Finds : Option (ℕ × C) → List C → Type 0
  Finds none cs = All Invalid cs
  Finds (some (i, c)) cs = IsFirstSmallest i c cs

module _ {C : Type 0} (it : Iterator C) (cmp : Comparator) (v : IsComparator cmp) where
  compare_self : (k : List ℕ) → cmp.compare k k ≢ Ordering.gt
  compare_self k e = ground (arith, ap is_lt (sym (v.compare_flip' k k e) ∙ e))

  ge_of_not_lt : (a b : List ℕ) → is_lt (cmp.compare a b) ≡ false → cmp.compare b a ≢ Ordering.gt
  ge_of_not_lt a b e g = ground (arith, e, ap is_lt (v.compare_flip' b a g))

  le_of_lt : (a b : List ℕ) → is_lt (cmp.compare a b) ≡ true → cmp.compare a b ≢ Ordering.gt
  le_of_lt a b e g = ground (arith, e, ap is_lt g)

  lt_of_test : (a b : List ℕ) → is_lt (cmp.compare a b) ≡ true → cmp.compare a b ≡ Ordering.lt
  lt_of_test a b e = is_lt-lt (cmp.compare a b) e

  -- A key below one that is not larger than a third is below the third.
  lt_of_lt_le :
      (a b c : List ℕ)
      → cmp.compare a b ≡ Ordering.lt
      → cmp.compare b c ≢ Ordering.gt
      → cmp.compare a c ≡ Ordering.lt
  lt_of_lt_le a b c lt le = elim (Bool-cases (is_lt (cmp.compare a c))) [
    | inl less ↦ lt_of_test a c less
    | inr more ↦ absurd (v.le_trans b c a le (ge_of_not_lt a c more) (v.compare_flip a b lt))
  ]

  -- No child that was looked at is valid.
  vacuous :
      (P : C → Type 0) (pre : List C)
      → All (Invalid it cmp) pre
      → All (λ d. it.valid d ≡ true → P d) pre
  vacuous P [] n = tt
  vacuous P (d ∷ pre) n = (λ p. absurd (ground (arith, p, n.0)), vacuous P pre n.1)

  kept-Finds :
      (pre : List C) (c : C) (found : Option (ℕ × C))
      → it.valid c ≡ false
      → Finds it cmp found pre
      → Finds it cmp found (pre ++ (c ∷ []))
  kept-Finds pre c none n f = All-append (Invalid it cmp) pre (c ∷ []) f (n, tt)
  kept-Finds pre c (some (j, s)) n f = record {
    at = get_elem?-append_left pre (c ∷ []) j s f.at;
    is_valid = f.is_valid;
    least =
        All-append (NotSmaller it cmp s) pre (c ∷ []) f.least
          (λ p. absurd (ground (arith, p, n)), tt);
    before = rw (take-append_left pre (c ∷ []) j s f.at) f.before;
  }

  smaller-Finds :
      (pre : List C) (c : C) (found : Option (ℕ × C))
      → it.valid c ≡ true
      → Finds it cmp found pre
      → Finds it cmp (smaller it cmp (length pre, c) found) (pre ++ (c ∷ []))
  smaller-Finds pre c none p f = record {
    at = get_elem?-last pre c;
    is_valid = p;
    least =
        All-append (NotSmaller it cmp c) pre (c ∷ [])
          (vacuous (λ d. cmp.compare (it.key c) (it.key d) ≢ Ordering.gt) pre f)
          (λ q. compare_self (it.key c), tt);
    before =
        rw (take-length_append pre (c ∷ []))
          (vacuous (λ d. cmp.compare (it.key c) (it.key d) ≡ Ordering.lt) pre f);
  }
  smaller-Finds pre c (some (j, s)) p f =
      elim (Bool-cases (is_lt (cmp.compare (it.key c) (it.key s)))) [
        | inl less ↦
            let below = λ (d : C) (h : NotSmaller it cmp s d) (q : it.valid d ≡ true).
              lt_of_lt_le (it.key c) (it.key s) (it.key d) (lt_of_test (it.key c) (it.key s) less)
                (h q) in
            let all : All (Larger it cmp c) pre =
              All-weaken (NotSmaller it cmp s) pre below f.least in
            rw less (record {
              at = get_elem?-last pre c;
              is_valid = p;
              least =
                  All-append (NotSmaller it cmp c) pre (c ∷ [])
                    (All-weaken (Larger it cmp c) pre
                      (λ d h q g. ground (arith, ap is_lt (sym (h q) ∙ g))) all)
                    (λ q. compare_self (it.key c), tt);
              before = rw (take-length_append pre (c ∷ [])) all;
            })
        | inr more ↦ rw more (record {
          at = get_elem?-append_left pre (c ∷ []) j s f.at;
          is_valid = f.is_valid;
          least =
              All-append (NotSmaller it cmp s) pre (c ∷ []) f.least
                (λ q. ge_of_not_lt (it.key c) (it.key s) more, tt);
          before = rw (take-append_left pre (c ∷ []) j s f.at) f.before;
        })
      ]

  taken-Finds :
      (pre : List C) (c : C) (found : Option (ℕ × C))
      → Finds it cmp found pre
      → Finds it cmp
          (if it.valid c then smaller it cmp (length pre, c) found else found)
          (pre ++ (c ∷ []))
  taken-Finds pre c found f = elim (Bool-cases (it.valid c)) [
    | inl p ↦ rw p (smaller-Finds pre c found p f)
    | inr n ↦ rw n (kept-Finds pre c found n f)
  ]

  smallest_from-Finds :
      (pre cs : List C) (found : Option (ℕ × C))
      → Finds it cmp found pre
      → Finds it cmp (smallest_from it cmp (length pre) cs found) (pre ++ cs)
  unfolding smallest_from
  smallest_from-Finds pre [] found f = rw (append-nil pre) f
  smallest_from-Finds pre (c ∷ cs) found f =
      let next = if it.valid c then smaller it cmp (length pre, c) found else found in
      let size : length (pre ++ (c ∷ [])) ≡ suc (length pre) =
        omega (arith, length-append pre (c ∷ [])) in
      let rest = smallest_from-Finds (pre ++ (c ∷ [])) cs next (taken-Finds pre c found f) in
      subst (Finds it cmp (smallest_from it cmp (suc (length pre)) cs next))
        (append_assoc pre (c ∷ []) cs)
        (subst (λ n. Finds it cmp (smallest_from it cmp n cs next) ((pre ++ (c ∷ [])) ++ cs)) size
          rest)

  -- Over a comparator that meets its interface, `FindSmallest` leaves the children as they are, and
  -- makes the current child the first one with the smallest key among the valid children, or none
  -- where none of them is valid.
  pub find_smallest-IsFirstSmallest :
      (m : MergingIterator C)
      → let m' = find_smallest it cmp m in
        (m'.children ≡ m.children)
        × (((m'.current ≡ none) × All (Invalid it cmp) m.children)
            ⊎ ((i : ℕ) × (c : C) × (m'.current ≡ some i) × IsFirstSmallest it cmp i c m.children))
  unfolding find_smallest
  find_smallest-IsFirstSmallest m = (
    refl,
    found_child (smallest_from it cmp 0 m.children none)
        (smallest_from-Finds [] m.children none tt),
  )
    where
      found_child :
          (found : Option (ℕ × C))
          → Finds it cmp found m.children
          → ((number_of it cmp found ≡ none) × All (Invalid it cmp) m.children)
            ⊎ ((i : ℕ) × (c : C) × (number_of it cmp found ≡ some i)
                × IsFirstSmallest it cmp i c m.children)
      found_child none f = inl (refl, f)
      found_child (some (i, c)) f = inr (i, c, refl, f)
