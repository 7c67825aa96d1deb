-- ===== src/SkipList/Splice.antt =====
-- A new node between the nodes of a skip list, for links and heights given as functions.
use squirrel.Prelude.{ℕ, ◌≤◌, ◌<◌, ◌≡◌, ◌≢◌, refl, arith, inl, inr}
use squirrel.Prelude.{
  ◌&&◌, Option, none, some, List, [], ◌∷◌, ◌++◌, ltb, ◌==◌, if◌then◌else◌, All, Option-cases,
  Bool-cases,
}
use squirrel.SkipList.Chain.{first_tall, last_tall, Links, Distinct}

abbrev or_else : Option ℕ → Option ℕ → Option ℕ
or_else none b = b
or_else (some a) b = some a

pub All-last_tall :
    (P : ℕ → Type 0) (height : ℕ → ℕ) (i x : ℕ) (xs : List ℕ)
    → P x
    → All P xs
    → P (last_tall height i x xs)
All-last_tall P height i x [] h a = h
All-last_tall P height i x (y ∷ ys) h a = elim (Bool-cases (ltb i (height y))) [
  | inl e ↦ rw e (All-last_tall P height i y ys a.0 a.1)
  | inr e ↦ rw e (All-last_tall P height i x ys h a.1)
]

pub last_tall-tall :
    (height : ℕ → ℕ) (i x : ℕ) (xs : List ℕ) → i < height x → i < height (last_tall height i x xs)
last_tall-tall height i x [] h = h
last_tall-tall height i x (y ∷ ys) h = elim (Bool-cases (ltb i (height y))) [
  | inl e ↦ rw e (last_tall-tall height i y ys (ground arith))
  | inr e ↦ rw e (last_tall-tall height i x ys h)
]

-- Above the height of all nodes there is none.
pub last_tall-above :
    (height : ℕ → ℕ) (i x : ℕ) (xs : List ℕ)
    → All (λ y. height y ≤ i) xs
    → last_tall height i x xs ≡ x
last_tall-above height i x [] h = refl
last_tall-above height i x (y ∷ ys) h = ground (arith, h.0, last_tall-above height i x ys h.1)

module _ (height : ℕ → ℕ) (i : ℕ) where
  first_tall-append :
      (xs ys : List ℕ)
      → first_tall height i (xs ++ ys) ≡ or_else (first_tall height i xs) (first_tall height i ys)
  first_tall-append [] ys = refl
  first_tall-append (x ∷ xs) ys = ground (arith, first_tall-append xs ys)

  last_tall-none :
      (z : ℕ) (xs : List ℕ) → first_tall height i xs ≡ none → last_tall height i z xs ≡ z
  last_tall-none z [] h = refl
  last_tall-none z (x ∷ xs) h = ground (arith, last_tall-none z xs)

  last_tall-some :
      (z y : ℕ) (xs : List ℕ)
      → All (λ x. z ≢ x) xs
      → first_tall height i xs ≡ some y
      → z ≢ last_tall height i z xs
  last_tall-some z y [] a h = cc
  last_tall-some z y (x ∷ xs) a h = elim (Bool-cases (ltb i (height x))) [
    | inl e ↦ rw e (All-last_tall (λ w. z ≢ w) height i x xs a.0 a.1)
    | inr e ↦ rw e (last_tall-some z y xs a.1 (ground arith))
  ]

  -- The last node with level `i` before `ys` is linked to the first one in `ys`.
  pub next-last_tall :
      (next : ℕ → ℕ → Option ℕ) (w : ℕ) (xs ys : List ℕ)
      → next w i ≡ first_tall height i (xs ++ ys)
      → Links next height (xs ++ ys)
      → next (last_tall height i w xs) i ≡ first_tall height i ys
  next-last_tall next w [] ys e l = e
  next-last_tall next w (x ∷ xs) ys e l = elim (Bool-cases (ltb i (height x))) [
    | inl t ↦ rw t (next-last_tall next x xs ys (l.0 i (ground arith)) l.1)
    | inr t ↦ rw t (next-last_tall next w xs ys (ground arith) l.1)
  ]

pub Links-suffix :
    (next : ℕ → ℕ → Option ℕ) (height : ℕ → ℕ) (xs ys : List ℕ)
    → Links next height (xs ++ ys)
    → Links next height ys
Links-suffix next height [] ys l = l
Links-suffix next height (x ∷ xs) ys l = Links-suffix next height xs ys l.1

module _ (next next' : ℕ → ℕ → Option ℕ) (height height' prev : ℕ → ℕ) (x h : ℕ)
    (old_height : (y : ℕ) → y ≢ x → height' y ≡ height y) (new_height : height' x ≡ h)
    (old_next : (y j : ℕ)
      → y ≢ x
      → next' y j ≡ (if ltb j h && (y == prev j) then some x else next y j)) where
  pub first_tall-agree :
      (i : ℕ) (ys : List ℕ) → All (λ y. y ≢ x) ys → first_tall height' i ys ≡ first_tall height i ys
  first_tall-agree i [] a = refl
  first_tall-agree i (y ∷ ys) a = ground (arith, old_height y a.0, first_tall-agree i ys a.1)

  pub Links-behind :
      (ys : List ℕ)
      → All (λ y. y ≢ x) ys
      → All (λ y. (j : ℕ) → j < h → y ≢ prev j) ys
      → Links next height ys
      → Links next' height' ys
  Links-behind [] a b l = tt
  Links-behind (y ∷ ys) a b l = (
    λ i lt. ground (arith, old_next y i, old_height y, first_tall-agree i ys a.1, l.0 i, b.0 i),
    Links-behind ys a.1 b.1 l.1,
  )

  pub splice :
      (c : ℕ → ℕ) (zs post : List ℕ)
      → ((i : ℕ) → i < h → prev i ≡ last_tall height i (c i) zs)
      → All (λ y. y ≢ x) zs
      → All (λ y. y ≢ x) post
      → Distinct zs
      → Links next height (zs ++ post)
      → Links next' height' (x ∷ post)
      → Links next' height' (zs ++ (x ∷ post))
  splice c [] post at a b d l new = new
  splice c (z ∷ zs) post at a b d l new = (
    λ i lt. linked i (ground (arith, old_height z)),
    splice (λ i. if ltb i (height z) then z else c i) zs post at a.1 b d.1 l.1 new,
  )
    where
      linked : (i : ℕ) → i < height z → next' z i ≡ first_tall height' i (zs ++ (x ∷ post))
      linked i lt = elim (Option-cases (first_tall height i zs)) [
        | inl e ↦ ground (
          arith,
          old_next z i a.0,
          at i,
          e,
          last_tall-none height i z zs e,
          first_tall-append height i zs post,
          first_tall-append height' i zs (x ∷ post),
          first_tall-agree i zs a.1,
          first_tall-agree i post b,
          l.0 i lt,
        )
        | inr (y, e) ↦ ground (
          arith,
          old_next z i a.0,
          at i,
          e,
          last_tall-some height i z y zs d.0 e,
          first_tall-append height i zs post,
          first_tall-append height' i zs (x ∷ post),
          first_tall-agree i zs a.1,
          first_tall-agree i post b,
          l.0 i lt,
        )
      ]
