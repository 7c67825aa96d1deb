-- ===== src/SkipList/Distinct.antt =====
-- Lists of distinct nodes, and their parts.
use squirrel.Prelude.{ℕ, ◌≢◌, sym, List, [], ◌∷◌, ◌++◌, All, All-append}
use squirrel.SkipList.Chain.{Distinct}

module _ {ℓ κ} {A : Type ℓ} (P : A → Type κ) where
  pub All-prefix : (xs ys : List A) → All P (xs ++ ys) → All P xs
  All-prefix [] ys h = tt
  All-prefix (x ∷ xs) ys h = (h.0, All-prefix xs ys h.1)

  pub All-suffix : (xs ys : List A) → All P (xs ++ ys) → All P ys
  All-suffix [] ys h = h
  All-suffix (x ∷ xs) ys h = All-suffix xs ys h.1

  pub All-weaken {μ} : {Q : A → Type μ} (xs : List A) → ((x : A) → P x → Q x) → All P xs → All Q xs
  All-weaken [] f h = tt
  All-weaken (x ∷ xs) f h = (f x h.0, All-weaken xs f h.1)

  pub All-of : (xs : List A) → ((x : A) → P x) → All P xs
  All-of [] f = tt
  All-of (x ∷ xs) f = (f x, All-of xs f)

pub Distinct-prefix : (zs ys : List ℕ) → Distinct (zs ++ ys) → Distinct zs
Distinct-prefix [] ys d = tt
Distinct-prefix (z ∷ zs) ys d = (All-prefix (λ y. z ≢ y) zs ys d.0, Distinct-prefix zs ys d.1)

apart_cons :
    (z : ℕ) (zs ys : List ℕ)
    → All (λ y. z ≢ y) ys
    → All (λ y. All (λ w. y ≢ w) zs) ys
    → All (λ y. All (λ w. y ≢ w) (z ∷ zs)) ys
apart_cons z zs [] a b = tt
apart_cons z zs (y ∷ ys) a b = ((λ e. a.0 (sym e), b.0), apart_cons z zs ys a.1 b.1)

-- No node of the second part stands in the first one.
pub Distinct-apart : (zs ys : List ℕ) → Distinct (zs ++ ys) → All (λ y. All (λ w. y ≢ w) zs) ys
Distinct-apart [] ys d = All-of (λ y. Unit {0}) ys (λ y. tt)
Distinct-apart (z ∷ zs) ys d =
    apart_cons z zs ys (All-suffix (λ y. z ≢ y) zs ys d.0) (Distinct-apart zs ys d.1)

pub Distinct-insert :
    (c : ℕ) (zs ys : List ℕ)
    → Distinct (zs ++ ys)
    → All (λ y. y ≢ c) zs
    → All (λ y. y ≢ c) ys
    → Distinct (zs ++ (c ∷ ys))
Distinct-insert c [] ys d a b = (All-weaken (λ y. y ≢ c) ys (λ y ne e. ne (sym e)) b, d)
Distinct-insert c (z ∷ zs) ys d a b = (
  All-append (λ y. z ≢ y) zs (c ∷ ys) (All-prefix (λ y. z ≢ y) zs ys d.0)
      (a.0, All-suffix (λ y. z ≢ y) zs ys d.0),
  Distinct-insert c zs ys d.1 a.1 b,
)

pub All-zip {ℓ κ μ} :
    {A : Type ℓ} (P : A → Type κ) (Q : A → Type μ) (xs : List A)
    → All P xs
    → All Q xs
    → All (λ x. P x × Q x) xs
All-zip P Q [] h g = tt
All-zip P Q (x ∷ xs) h g = ((h.0, g.0), All-zip P Q xs h.1 g.1)
