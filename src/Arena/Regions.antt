-- ===== src/Arena/Regions.antt =====
-- Regions of memory.
use squirrel.Prelude.{◌+◌, ◌≤◌, arith, ◌⊎◌, inl, inr, List, [], ◌∷◌, All}
use squirrel.Arena.{Region}

-- No byte in common.
abbrev pub Apart : Region → Region → Type 0
Apart r q = (r.base + r.size ≤ q.base) ⊎ (q.base + q.size ≤ r.base)

abbrev pub Inside : Region → Region → Type 0
Inside r q = (q.base ≤ r.base) × (r.base + r.size ≤ q.base + q.size)

-- Inside one of the blocks.
abbrev pub Within : Region → List Region → Type 0
Within r [] = ⊥
Within r (b ∷ bs) = Inside r b ⊎ Within r bs

abbrev pub AllApart : List Region → Type 0
AllApart [] = Unit {0}
AllApart (r ∷ rs) = All (λ q. Apart r q) rs × AllApart rs

pub Apart-of_Inside : (f r b : Region) → Apart f b → Inside r b → Apart f r
Apart-of_Inside f r b (inl h) i = inl (omega arith)
Apart-of_Inside f r b (inr h) i = inr (omega arith)

pub Apart-of_Within :
    (f r : Region) (bs : List Region) → All (λ b. Apart f b) bs → Within r bs → Apart f r
Apart-of_Within f r [] a w = absurd w
Apart-of_Within f r (b ∷ bs) a (inl i) = Apart-of_Inside f r b a.0 i
Apart-of_Within f r (b ∷ bs) a (inr w) = Apart-of_Within f r bs a.1 w

pub All-Apart-of_Within :
    (f : Region) (bs rs : List Region)
    → All (λ b. Apart f b) bs
    → All (λ r. Within r bs) rs
    → All (λ r. Apart f r) rs
All-Apart-of_Within f bs [] a w = tt
All-Apart-of_Within f bs (r ∷ rs) a w =
    (Apart-of_Within f r bs a w.0, All-Apart-of_Within f bs rs a w.1)

pub Apart-smaller :
    (f g : Region) (rs : List Region)
    → Inside g f
    → All (λ r. Apart f r) rs
    → All (λ r. Apart g r) rs
Apart-smaller f g [] i a = tt
Apart-smaller f g (r ∷ rs) i (inl h, a) = (inl (omega arith), Apart-smaller f g rs i a)
Apart-smaller f g (r ∷ rs) i (inr h, a) = (inr (omega arith), Apart-smaller f g rs i a)

pub Within-more :
    (b : Region) (bs rs : List Region) → All (λ r. Within r bs) rs → All (λ r. Within r (b ∷ bs)) rs
Within-more b bs [] w = tt
Within-more b bs (r ∷ rs) w = (inr w.0, Within-more b bs rs w.1)

pub Within-smaller : (r q : Region) (bs : List Region) → Inside q r → Within r bs → Within q bs
Within-smaller r q [] i w = w
Within-smaller r q (b ∷ bs) i (inl h) = inl (omega arith)
Within-smaller r q (b ∷ bs) i (inr w) = inr (Within-smaller r q bs i w)
