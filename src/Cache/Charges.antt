-- ===== src/Cache/Charges.antt =====
-- The charges of handles, and bounds on the numbers of handles.
use squirrel.Prelude.{ℕ, zero, suc, ◌+◌, ◌≡◌, ◌<◌, refl, sym, ap, arith, inl, inr, Bool-cases}
use squirrel.Prelude.{List, [], ◌∷◌, ◌==◌, All}
use squirrel.SkipList.Distinct.{All-weaken}
use squirrel.Cache.{Handles}
use squirrel.Cache.Lru.{with_refs, lru_remove}

-- The charges of some entries, and of all entries that have been allocated.
abbrev pub charges : Handles → List ℕ → ℕ
charges handles [] = 0
charges handles (e ∷ es) = (handles e).charge + charges handles es

abbrev pub all_charges : Handles → ℕ → ℕ
all_charges handles zero = 0
all_charges handles (suc n) = (handles n).charge + all_charges handles n

-- Handles with the same charges below `n`.
abbrev pub SameCharges : Handles → Handles → ℕ → Type 0
SameCharges handles handles' n = (g : ℕ) → g < n → (handles' g).charge ≡ (handles g).charge

pub charges-same :
    (handles handles' : Handles) (n : ℕ) (es : List ℕ)
    → SameCharges handles handles' n
    → All (λ e. e < n) es
    → charges handles' es ≡ charges handles es
charges-same handles handles' n [] same a = refl
charges-same handles handles' n (e ∷ es) same a =
    omega (arith, same e a.0, charges-same handles handles' n es same a.1)

pub all_charges-same :
    (handles handles' : Handles) (n : ℕ)
    → SameCharges handles handles' n
    → all_charges handles' n ≡ all_charges handles n
all_charges-same handles handles' zero same = refl
all_charges-same handles handles' (suc n) same = omega (
  arith,
  same n (omega arith),
  all_charges-same handles handles' n (λ g lt. same g (omega (arith, lt))),
)

pub with_refs-charge :
    (handles : Handles) (e refs g : ℕ) → (with_refs handles e refs g).charge ≡ (handles g).charge
with_refs-charge handles e refs g = elim (Bool-cases (g == e)) [
  | inl at ↦ let same : g ≡ e = ground arith in rw at (ap (λ n. (handles n).charge) (sym same))
  | inr off ↦ rw off refl
]

pub lru_remove-All : (P : ℕ → Type 0) (e : ℕ) (lru : List ℕ) → All P lru → All P (lru_remove e lru)
unfolding lru_remove
lru_remove-All P e [] a = tt
lru_remove-All P e (g ∷ lru) a = elim (Bool-cases (g == e)) [
  | inl at ↦ rw at a.1
  | inr off ↦ rw off (a.0, lru_remove-All P e lru a.1)
]

pub one_more : (n : ℕ) (xs : List ℕ) → All (λ e. e < n) xs → All (λ e. e < n + 1) xs
one_more n xs a = All-weaken (λ e. e < n) xs (λ e lt. omega (arith, lt)) a

pub one_more_in_chains :
    (n : ℕ) (cs : List (List ℕ)) → All (All (λ e. e < n)) cs → All (All (λ e. e < n + 1)) cs
one_more_in_chains n cs a = All-weaken (All (λ e. e < n)) cs (one_more n) a
